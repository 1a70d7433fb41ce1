-- ===== src/Limits/LogSink.antt =====
-- apps/api/src/ci/log-sink.ts: the log of a job, capped with its marker inside the cap. A chunk is a
-- list of bytes; whether the stream is congested is left out.
use forge_hub.Base.{
  Bool, Bool-cases, List, Text, [], ap, append-nil, append_assoc, ap₂, arith, codes, false,
  if_false, if_true, if◌then◌else◌, inl, inr, leb, leb-false→lt, leb→le, length, length-append,
  length-take, ltb, refl, show, suc, sym, take, true, zero, ℕ, ◌++◌, ◌+◌, ◌-◌, ◌∙◌, ◌∷◌, ◌≡◌, ◌≤◌,
  text-Eq,
}

unfoldable pub truncation_marker : ℕ → Text
unfolding show
truncation_marker cap =
    codes "\n[runner] --- log truncated: this job exceeded the "
    ++ show cap
    ++ codes "-byte per-job log cap (CI_MAX_LOG_BYTES); all further output was discarded ---\n"

-- `out` is what the stream was given.
pub record Sink : Type 0 where
  pub out : List ℕ
  pub written : ℕ
  pub truncated : Bool
  pub content_cap : ℕ
  pub marker : Text

-- The constructor; `Math.max(0, ...)` is the subtraction of natural numbers.
unfoldable pub new_sink : ℕ → Sink
unfolding truncation_marker
new_sink cap =
    let marker = truncation_marker cap in
    record {
      out = [];
      written = 0;
      truncated = false;
      content_cap = cap - length marker;
      marker = marker;
    }

unfoldable pub mark_truncated : Sink → Sink
mark_truncated s = record s {
  truncated = true;
  written = s.written + length s.marker;
  out = s.out ++ s.marker;
}

abbrev put : List ℕ → Sink → Sink
put bytes s = record s { written = s.written + length bytes; out = s.out ++ bytes }

-- `buf.length <= room` and `room > 0`, for `room = contentCap - written`.
unfoldable pub write : List ℕ → Sink → Sink
unfolding mark_truncated
write chunk s =
    if s.truncated
    then s
    else if leb (s.written + length chunk) s.content_cap
    then put chunk s
    else if ltb s.written s.content_cap
    then mark_truncated (put (take (s.content_cap - s.written) chunk) s)
    else mark_truncated s

unfoldable pub write_all : List (List ℕ) → Sink → Sink
unfolding write
write_all [] s = s
write_all (chunk ∷ chunks) s = write_all chunks (write chunk s)

abbrev pub joined : List (List ℕ) → List ℕ
joined [] = []
joined (c ∷ cs) = c ++ joined cs

write-truncated : (c : List ℕ) (s : Sink) → s.truncated ≡ true → write c s ≡ s
unfolding write
write-truncated c s h = if_true s.truncated s _ h

write-fits :
    (c : List ℕ) (s : Sink)
    → s.truncated ≡ false
    → leb (s.written + length c) s.content_cap ≡ true
    → write c s ≡ put c s
unfolding write
write-fits c s h e =
    if_false s.truncated s _ h ∙ if_true (leb (s.written + length c) s.content_cap) _ _ e

-- A chunk that crosses the cap: what fits of it, and the marker.
write-over :
    (c : List ℕ) (s : Sink)
    → s.truncated ≡ false
    → leb (s.written + length c) s.content_cap ≡ false
    → ((write c s).truncated ≡ true)
      × ((write c s).out ≡ s.out ++ take (s.content_cap - s.written) c ++ s.marker)
      × ((write c s).written
          ≡ s.written + length (take (s.content_cap - s.written) c) + length s.marker)
unfolding write mark_truncated
write-over c s h e =
    rw
      (
        if_false s.truncated s _ h,
        if_false (leb (s.written + length c) s.content_cap) (put c s) _ e,
      )
      (elim (Bool-cases (ltb s.written s.content_cap)) [
        | inl l ↦ rw l (refl, refl, refl)
        | inr l ↦ rw (l, no_room l) (refl, rw (append-nil s.out) refl, omega arith)
      ])
  where
    no_room : ltb s.written s.content_cap ≡ false → s.content_cap - s.written ≡ 0
    no_room l = ground arith

write_all-truncated :
    (chunks : List (List ℕ)) (s : Sink) → s.truncated ≡ true → write_all chunks s ≡ s
unfolding write_all
write_all-truncated [] s h = refl
write_all-truncated (c ∷ cs) s h =
    ap (write_all cs) (write-truncated c s h) ∙ write_all-truncated cs s h

take-append_short : (n : ℕ) (xs ys : List ℕ) → n ≤ length xs → take n (xs ++ ys) ≡ take n xs
take-append_short zero xs ys h = refl
take-append_short (suc n) [] ys h = absurd (omega arith)
take-append_short (suc n) (x ∷ xs) ys h = rw (take-append_short n xs ys (omega arith))

take-append_long :
    (n : ℕ) (xs ys : List ℕ) → length xs ≤ n → take n (xs ++ ys) ≡ xs ++ take (n - length xs) ys
take-append_long n [] ys h = ap (λ k. take k ys) (omega arith)
take-append_long zero (x ∷ xs) ys h = absurd (omega arith)
take-append_long (suc n) (x ∷ xs) ys h =
    ap (λ t. x ∷ t) (take-append_long n xs ys (omega arith))
    ∙ ap (λ k. x ∷ (xs ++ take k ys)) (omega arith)

-- What the stream is given, from a sink that is not truncated.
abbrev pub expected : Sink → List ℕ → List ℕ
expected s bytes =
    if leb (s.written + length bytes) s.content_cap
    then s.out ++ bytes
    else s.out ++ take (s.content_cap - s.written) bytes ++ s.marker

expected-put :
    (c j : List ℕ) (s : Sink)
    → leb (s.written + length c) s.content_cap ≡ true
    → expected (put c s) j ≡ expected s (c ++ j)
expected-put c j s e =
    let fits = leb→le (s.written + length c) s.content_cap e in
    let sum : s.written + length c + length j ≡ s.written + length (c ++ j) =
      omega (arith, length-append c j) in
    let rest : s.content_cap - (s.written + length c) ≡ s.content_cap - s.written - length c =
      omega arith in
    rw (sum, rest, take-append_long (s.content_cap - s.written) c j (omega arith))
      (elim (Bool-cases (leb (s.written + length (c ++ j)) s.content_cap)) [
        | inl l ↦ rw l (append_assoc s.out c j)
        | inr l ↦ rw l (
            ap (λ t. t ++ s.marker)
              (append_assoc s.out c (take (s.content_cap - s.written - length c) j)))
      ])

expected-over :
    (c j : List ℕ) (s : Sink)
    → leb (s.written + length c) s.content_cap ≡ false
    → s.written ≤ s.content_cap
    → s.out ++ take (s.content_cap - s.written) c ++ s.marker ≡ expected s (c ++ j)
expected-over c j s e fits =
    let over = leb-false→lt (s.written + length c) s.content_cap e in
    let longer : leb (s.written + length (c ++ j)) s.content_cap ≡ false =
      ground (arith, length-append c j) in
    rw (longer, take-append_short (s.content_cap - s.written) c j (omega arith))

write_all-out :
    (chunks : List (List ℕ)) (s : Sink)
    → s.truncated ≡ false
    → s.written ≤ s.content_cap
    → (write_all chunks s).out ≡ expected s (joined chunks)
unfolding write_all
write_all-out [] s h fits =
    sym (append-nil s.out)
    ∙ sym (if_true (leb (s.written + 0) s.content_cap) (s.out ++ []) _ (ground arith))
write_all-out (c ∷ cs) s h fits = elim (Bool-cases (leb (s.written + length c) s.content_cap)) [
  | inl e ↦
      ap (λ (t : Sink). (write_all cs t).out) (write-fits c s h e)
      ∙ write_all-out cs (put c s) h (leb→le (s.written + length c) s.content_cap e)
      ∙ expected-put c (joined cs) s e
  | inr e ↦
      let (cut, out, _) = write-over c s h e in
      ap (λ (t : Sink). t.out) (write_all-truncated cs (write c s) cut)
      ∙ out
      ∙ expected-over c (joined cs) s e fits
]

zero_add : (n : ℕ) → 0 + n ≡ n
zero_add n = omega arith

sub_zero : (n : ℕ) → n - 0 ≡ n
sub_zero n = omega arith

log_is :
    (cap : ℕ) (chunks : List (List ℕ))
    → (write_all chunks (new_sink cap)).out ≡ (
        if leb (length (joined chunks)) (cap - length (truncation_marker cap))
        then joined chunks
        else take (cap - length (truncation_marker cap)) (joined chunks) ++ truncation_marker cap)
unfolding new_sink
log_is cap chunks =
    let room = cap - length (truncation_marker cap) in
    write_all-out chunks (new_sink cap) refl (omega arith)
    ∙ ap₂
        (λ n k.
          if leb n room then joined chunks else take k (joined chunks) ++ truncation_marker cap)
        (zero_add (length (joined chunks))) (sub_zero room)

bounded :
    (cap : ℕ) (chunks : List (List ℕ))
    → length (truncation_marker cap) ≤ cap
    → length (write_all chunks (new_sink cap)).out ≤ cap
bounded cap chunks h =
    rw (log_is cap chunks)
      (elim (Bool-cases (leb (length (joined chunks)) (cap - length (truncation_marker cap)))) [
        | inl l ↦ rw l (omega (arith, leb→le _ _ l))
        | inr l ↦
            rw
              (
                l,
                length-append (take (cap - length (truncation_marker cap)) (joined chunks))
                    (truncation_marker cap),
                length-take (cap - length (truncation_marker cap)) (joined chunks),
              )
              (omega arith)
      ])

-- However the output of a job is cut into chunks: if it fits the cap less the marker, the log is the
-- output; if not, the log is as much of its beginning as fits there, and the marker. With a cap
-- that the marker fits in, the log is then no longer than the cap.
pub write_all-new_sink :
    (cap : ℕ) (chunks : List (List ℕ))
    → ((write_all chunks (new_sink cap)).out ≡ (
        if leb (length (joined chunks)) (cap - length (truncation_marker cap))
        then joined chunks
        else take (cap - length (truncation_marker cap)) (joined chunks) ++ truncation_marker cap))
      × (length (truncation_marker cap) ≤ cap → length (write_all chunks (new_sink cap)).out ≤ cap)
write_all-new_sink cap chunks = (log_is cap chunks, bounded cap chunks)
