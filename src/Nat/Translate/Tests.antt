-- ===== src/Nat/Translate/Tests.antt =====
-- src/router/nat.rs: a query from the LAN and the reply to it, both UDP.
use userspace_router.Base.Map.{lookup}
use userspace_router.Base.{
  ℕ, ◌+◌, ◌≤◌, ◌≡◌, refl, ap, ◌∙◌, false, none, some, List, [], ◌∷◌, length, arith,
}
use userspace_router.Wire.{byte}
use userspace_router.Checksum.Sum.{AreBytes, word_sum}
use userspace_router.View
use userspace_router.View.{
  ethernet_at, ethernet_checked, ipv4_at, ipv4_end, udp_at, udp_end, parse, ipv4, protocol,
  src_port, dst_port,
}
use userspace_router.Nat
use userspace_router.Nat.{L4, tcp, udp, Nat, Egress, egress, ingress, from_proto, proto}
use userspace_router.Nat.Translate.Sums.{ip_sum, l4_sum}
use userspace_router.Checksum.{ipv4_header, checksum, finish, fold, fold_loop, accumulate}
use userspace_router.Nat.Laws.{IsConsistent, new-IsConsistent}
use userspace_router.Nat.Alloc.{InRange}
use userspace_router.Nat.Translate.{
  Classified, classify, l4_view, egress_rewrite, classify_src, classify_dst, translate_egress,
  translate_ingress,
}
use userspace_router.Nat.Translate.Rewrite.{touched, l4_sum_at}
use userspace_router.Nat.Translate.Frames.{classified_egress, with_endpoint}
use userspace_router.Nat.Translate.Endpoint.{
  classify_room, translate_egress_endpoints, translate_egress_bytes,
  translate_ingress-translate_egress,
}
use userspace_router.Nat.Translate.Valid.{
  KeepsChecks, translate_egress-KeepsChecks, translate_ingress-KeepsChecks, ip_check, l4_check,
}

-- 192.168.1.50:49152 to 8.8.8.8:53
abbrev query : List ℕ
query =
    2 ∷ 0 ∷ 0 ∷ 0 ∷ 0 ∷ 1 ∷ 2 ∷ 0 ∷ 0 ∷ 0 ∷ 0 ∷ 2 ∷ 8 ∷ 0 ∷ 69 ∷ 0 ∷ 0 ∷ 30 ∷ 0 ∷ 0 ∷ 0 ∷ 0 ∷ 64
    ∷ 17 ∷ 168 ∷ 229 ∷ 192 ∷ 168 ∷ 1 ∷ 50 ∷ 8 ∷ 8 ∷ 8 ∷ 8 ∷ 192 ∷ 0 ∷ 0 ∷ 53 ∷ 0 ∷ 10 ∷ 5 ∷ 81 ∷ 104
    ∷ 105 ∷ []

-- 8.8.8.8:53 to 203.0.113.1:40000
abbrev reply : List ℕ
reply =
    2 ∷ 0 ∷ 0 ∷ 0 ∷ 0 ∷ 1 ∷ 2 ∷ 0 ∷ 0 ∷ 0 ∷ 0 ∷ 2 ∷ 8 ∷ 0 ∷ 69 ∷ 0 ∷ 0 ∷ 30 ∷ 0 ∷ 0 ∷ 0 ∷ 0 ∷ 64
    ∷ 17 ∷ 46 ∷ 190 ∷ 8 ∷ 8 ∷ 8 ∷ 8 ∷ 203 ∷ 0 ∷ 113 ∷ 1 ∷ 0 ∷ 53 ∷ 156 ∷ 64 ∷ 0 ∷ 10 ∷ 167 ∷ 231
    ∷ 111 ∷ 107 ∷ []

abbrev captured : Classified
captured = record { ip_off = 14; l4_off = 34; l4 = udp; addr = 0xc0a80132; port = 49_152 }

abbrev captured_reply : Classified
captured_reply = record { ip_off = 14; l4_off = 34; l4 = udp; addr = 0xcb007101; port = 40_000 }

abbrev empty : Nat
empty = record {
  wan_ip = 0xcb007101;
  port_lo = 40_000;
  port_hi = 40_001;
  next_port = 40_000;
  fwd = [];
  rev = [];
}

empty-IsConsistent : IsConsistent empty
unfolding Nat.new
empty-IsConsistent = new-IsConsistent 0xcb007101 40_000 40_001 empty refl

query-AreBytes : AreBytes query
query-AreBytes = (
  omega arith,
  (
    omega arith,
    (
      omega arith,
      (
        omega arith,
        (
          omega arith,
          (
            omega arith,
            (
              omega arith,
              (
                omega arith,
                (
                  omega arith,
                  (
                    omega arith,
                    (
                      omega arith,
                      (
                        omega arith,
                        (
                          omega arith,
                          (
                            omega arith,
                            (
                              omega arith,
                              (
                                omega arith,
                                (
                                  omega arith,
                                  (
                                    omega arith,
                                    (
                                      omega arith,
                                      (
                                        omega arith,
                                        (
                                          omega arith,
                                          (
                                            omega arith,
                                            (
                                              omega arith,
                                              (
                                                omega arith,
                                                (
                                                  omega arith,
                                                  (
                                                    omega arith,
                                                    (
                                                      omega arith,
                                                      (
                                                        omega arith,
                                                        (
                                                          omega arith,
                                                          (
                                                            omega arith,
                                                            (
                                                            omega arith,
                                                            (
                                                            omega arith,
                                                            (
                                                            omega arith,
                                                            (
                                                            omega arith,
                                                            (
                                                            omega arith,
                                                            (
                                                            omega arith,
                                                            (
                                                            omega arith,
                                                            (
                                                            omega arith,
                                                            (
                                                            omega arith,
                                                            (
                                                            omega arith,
                                                            (
                                                            omega arith,
                                                            (
                                                            omega arith,
                                                            (omega arith, (omega arith, tt)),
                                                            ),
                                                            ),
                                                            ),
                                                            ),
                                                            ),
                                                            ),
                                                            ),
                                                            ),
                                                            ),
                                                            ),
                                                            ),
                                                            ),
                                                          ),
                                                        ),
                                                      ),
                                                    ),
                                                  ),
                                                ),
                                              ),
                                            ),
                                          ),
                                        ),
                                      ),
                                    ),
                                  ),
                                ),
                              ),
                            ),
                          ),
                        ),
                      ),
                    ),
                  ),
                ),
              ),
            ),
          ),
        ),
      ),
    ),
  ),
)

query_classified : classify_src query ≡ some captured
unfolding classify parse ethernet_at ethernet_checked byte ipv4 ipv4_at ipv4_end l4_view View.udp
    udp_at udp_end from_proto
query_classified = refl

reply_classified : classify_dst reply ≡ some captured_reply
unfolding classify parse ethernet_at ethernet_checked byte ipv4 ipv4_at ipv4_end l4_view View.udp
    udp_at udp_end from_proto
reply_classified = refl

-- The checksums of both frames are right.
query_checks : (ip_check query captured ≡ 0) × (l4_check query captured 44 ≡ 0)
unfolding ip_check l4_check ip_sum l4_sum ipv4_header checksum finish fold fold_loop accumulate
    word_sum proto
query_checks = (refl, refl)

query_translated :
    (translate_egress query empty).2
    ≡ some (record { new_src_ip = 0xcb007101; new_src_port = 40_000 })
unfolding egress_rewrite egress lookup Nat.alloc_port Nat.scan
query_translated = ap (λ r. r.2) (classified_egress query empty captured query_classified) ∙ chosen
  where
    chosen :
        (egress_rewrite query captured (egress empty udp 0xc0a80132 49_152)).2
        ≡ some (record { new_src_ip = 0xcb007101; new_src_port = 40_000 })
    chosen = refl

abbrev answered : Egress
answered = record { new_src_ip = 0xcb007101; new_src_port = 40_000 }

classify_room_example :
    (14 ≤ captured.ip_off)
    × (captured.ip_off + 20 ≤ captured.l4_off)
    × (captured.l4_off + 4 ≤ l4_sum_at captured)
    × (l4_sum_at captured + 2 ≤ length query)
classify_room_example = classify_room View.src src_port query captured query_classified

translate_egress_endpoints_example :
    (c : Classified) × (classify_src query ≡ some c)
    × (classify_src (translate_egress query empty).0
        ≡ with_endpoint c empty.wan_ip answered.new_src_port)
    × (classify_dst (translate_egress query empty).0 ≡ classify_dst query)
    × InRange empty answered.new_src_port
translate_egress_endpoints_example =
    translate_egress_endpoints query empty answered empty-IsConsistent (omega arith) (omega arith)
      query_translated

translate_egress_bytes_example :
    (length (translate_egress query empty).0 ≡ length query)
    × ((c : Classified) (i : ℕ)
        → classify_src query ≡ some c
        → touched c 12 0 i ≡ false
        → byte (translate_egress query empty).0 i ≡ byte query i)
    × (classify_src query ≡ none → translate_egress query empty ≡ (query, empty, none))
translate_egress_bytes_example = translate_egress_bytes query empty

translate_ingress-translate_egress_example :
    ((translate_ingress reply (translate_egress query empty).1).1
      ≡ some (record { dst_ip = captured.addr; dst_port = captured.port }))
    × (classify_dst (translate_ingress reply (translate_egress query empty).1).0
        ≡ with_endpoint captured_reply captured.addr captured.port)
    × (classify_src (translate_ingress reply (translate_egress query empty).1).0
        ≡ classify_src reply)
translate_ingress-translate_egress_example =
    translate_ingress-translate_egress query reply empty answered captured captured_reply
      empty-IsConsistent query-AreBytes query_translated query_classified reply_classified refl refl

translate_egress-KeepsChecks_example : KeepsChecks query (translate_egress query empty).0 captured
translate_egress-KeepsChecks_example =
    translate_egress-KeepsChecks query empty captured empty-IsConsistent (omega arith)
      query-AreBytes (omega arith) query_classified

reply-AreBytes : AreBytes reply
reply-AreBytes = (
  omega arith,
  (
    omega arith,
    (
      omega arith,
      (
        omega arith,
        (
          omega arith,
          (
            omega arith,
            (
              omega arith,
              (
                omega arith,
                (
                  omega arith,
                  (
                    omega arith,
                    (
                      omega arith,
                      (
                        omega arith,
                        (
                          omega arith,
                          (
                            omega arith,
                            (
                              omega arith,
                              (
                                omega arith,
                                (
                                  omega arith,
                                  (
                                    omega arith,
                                    (
                                      omega arith,
                                      (
                                        omega arith,
                                        (
                                          omega arith,
                                          (
                                            omega arith,
                                            (
                                              omega arith,
                                              (
                                                omega arith,
                                                (
                                                  omega arith,
                                                  (
                                                    omega arith,
                                                    (
                                                      omega arith,
                                                      (
                                                        omega arith,
                                                        (
                                                          omega arith,
                                                          (
                                                            omega arith,
                                                            (
                                                            omega arith,
                                                            (
                                                            omega arith,
                                                            (
                                                            omega arith,
                                                            (
                                                            omega arith,
                                                            (
                                                            omega arith,
                                                            (
                                                            omega arith,
                                                            (
                                                            omega arith,
                                                            (
                                                            omega arith,
                                                            (
                                                            omega arith,
                                                            (
                                                            omega arith,
                                                            (
                                                            omega arith,
                                                            (
                                                            omega arith,
                                                            (omega arith, (omega arith, tt)),
                                                            ),
                                                            ),
                                                            ),
                                                            ),
                                                            ),
                                                            ),
                                                            ),
                                                            ),
                                                            ),
                                                            ),
                                                            ),
                                                            ),
                                                          ),
                                                        ),
                                                      ),
                                                    ),
                                                  ),
                                                ),
                                              ),
                                            ),
                                          ),
                                        ),
                                      ),
                                    ),
                                  ),
                                ),
                              ),
                            ),
                          ),
                        ),
                      ),
                    ),
                  ),
                ),
              ),
            ),
          ),
        ),
      ),
    ),
  ),
)

-- The table after the query.
abbrev bound : Nat
bound = record {
  wan_ip = 0xcb007101;
  port_lo = 40_000;
  port_hi = 40_001;
  next_port = 40_001;
  fwd = ((17, 0xc0a80132, 49_152), 40_000) ∷ [];
  rev = ((17, 40_000), record { ip = 0xc0a80132; port = 49_152 }) ∷ [];
}

reply_bound : ingress bound udp 40_000 ≡ some (0xc0a80132, 49_152)
unfolding ingress lookup proto
reply_bound = refl

translate_ingress-KeepsChecks_example :
    KeepsChecks reply (translate_ingress reply bound).0 captured_reply
translate_ingress-KeepsChecks_example =
    translate_ingress-KeepsChecks reply bound captured_reply 0xc0a80132 49_152 reply-AreBytes
      (omega arith) reply_classified reply_bound (omega arith)
