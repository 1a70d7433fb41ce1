-- ===== src/Limits/Tests.antt =====
-- log-sink.ts and byte-cache.ts: a log that is cut, and a cache that evicts.
use forge_hub.Base.{
  List, [], codes, if◌then◌else◌, leb, length, refl, take, ℕ, ◌++◌, ◌-◌, ◌∷◌, ◌≡◌, ◌≤◌, text-Eq,
}
use forge_hub.Limits.LogSink.{write_all, new_sink, write_all-new_sink, truncation_marker, joined}
use forge_hub.Limits.ByteCache.{
  setting, getting, operate_all, operate_all-IsBounded, IsBounded, Operation,
}

abbrev chunks : List (List ℕ)
chunks = (97 ∷ 98 ∷ []) ∷ (99 ∷ []) ∷ []

write_all-new_sink_example :
    ((write_all chunks (new_sink 10)).out ≡ (
      if leb (length (joined chunks)) (10 - length (truncation_marker 10))
      then joined chunks
      else take (10 - length (truncation_marker 10)) (joined chunks) ++ truncation_marker 10))
    × (length (truncation_marker 10) ≤ 10 → length (write_all chunks (new_sink 10)).out ≤ 10)
write_all-new_sink_example = write_all-new_sink 10 chunks

abbrev operations : List (Operation ℕ)
operations =
    setting (codes "a") 6 ∷ setting (codes "b") 3 ∷ getting (codes "a") ∷ setting (codes "c") 4 ∷ []

-- The entry used last stays, the other goes.
operate_all-evicts :
    operate_all (λ n. n) operations (record { entries = []; bytes = 0; budget = 10 })
    ≡ record { entries = (codes "a", 6) ∷ (codes "c", 4) ∷ []; bytes = 10; budget = 10 }
unfolding operate_all
operate_all-evicts = refl

operate_all-IsBounded_example :
    IsBounded
      (λ n. n)
      (operate_all (λ n. n) operations (record { entries = []; bytes = 0; budget = 10 }))
operate_all-IsBounded_example = operate_all-IsBounded (λ n. n) 10 operations
