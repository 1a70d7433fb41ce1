-- ===== src/Base/Strings.antt =====
-- Text as the source's strings: lists of UTF-16 code units, with the string operations it uses.
use Prim.Native.Nat.{ℕ, ◌+◌}
use Prim.Native.Char.{code}
use Prim.Native.String.{String}
use mathlib.Core.Path.{◌≡◌, refl, sym, ap, ap₂, ◌∙◌}
use mathlib.Core.Logic.{◌↔◌, inl, inr}
use mathlib.Core.Bool.{Bool, true, false, ◌&&◌, ◌||◌}
use mathlib.Core.List.{List, [], ◌∷◌, ◌++◌}
use native.Mathlib.Omega.{arith}
use forge_hub.Base.Compare.{leb, ◌==◌, if◌then◌else◌, Eq, Bool-cases, ==_iff, ==-self}
use forge_hub.Base.Lists.{All}

abbrev pub Text : Type 0
Text = List ℕ

-- The code points of a literal, which are its code units below U+10000.
abbrev pub codes : String → Text
codes String.[] = []
codes (String.◌∷◌ c s) = code c ∷ codes s

abbrev pub text_eq : Text → Text → Bool
text_eq [] [] = true
text_eq (a ∷ s) (b ∷ t) = a == b && text_eq s t
text_eq _ _ = false

pub text_eq_iff : (s t : Text) → (text_eq s t ≡ true) ↔ (s ≡ t)
text_eq_iff [] [] = (λ _. refl, λ _. refl)
text_eq_iff (a ∷ s) (b ∷ t) = ground (arith, text_eq_iff s t)
text_eq_iff [] (b ∷ t) = (λ e. cc, λ e. cc)
text_eq_iff (a ∷ s) [] = (λ e. cc, λ e. cc)

instance abbrev pub text-Eq : Eq Text
text-Eq = record { beq = text_eq; beq_iff = text_eq_iff }

-- `!s`, for a string: the empty one is falsy.
abbrev pub is_empty : Text → Bool
is_empty [] = true
is_empty (c ∷ s) = false

-- `s.startsWith(prefix)` and `s.endsWith("c")`.
abbrev pub starts_with : Text → Text → Bool
starts_with s [] = true
starts_with [] (p ∷ ps) = false
starts_with (c ∷ s) (p ∷ ps) = c == p && starts_with s ps

-- White space of `trim` and of `\s`.
abbrev pub is_space : ℕ → Bool
is_space c =
    (leb 9 c && leb c 13)
    || c == 32
    || c == 160
    || c == 0x1680
    || (leb 0x2000 c && leb c 0x200a)
    || c == 0x2028
    || c == 0x2029
    || c == 0x202f
    || c == 0x205f
    || c == 0x3000
    || c == 0xfeff

unfoldable pub trim_start : Text → Text
trim_start [] = []
trim_start (c ∷ s) = let rest = trim_start s in if is_space c then rest else c ∷ s

abbrev pub drop_space_end : ℕ → Text → Text
drop_space_end c [] = if is_space c then [] else c ∷ []
drop_space_end c (d ∷ s) = c ∷ d ∷ s

unfoldable pub trim_end : Text → Text
trim_end [] = []
trim_end (c ∷ s) = drop_space_end c (trim_end s)

unfoldable pub trim : Text → Text
unfolding trim_start trim_end
trim s = trim_end (trim_start s)

-- `toLowerCase` on ASCII; other code units stay.
abbrev pub lower_unit : ℕ → ℕ
lower_unit c = if leb b'A' c && leb c b'Z' then c + 32 else c

abbrev pub push_head : ℕ → List Text → List Text
push_head c [] = (c ∷ []) ∷ []
push_head c (s ∷ ss) = (c ∷ s) ∷ ss

-- `s.split("c")`.
unfoldable pub split_on : ℕ → Text → List Text
split_on sep [] = [] ∷ []
split_on sep (c ∷ s) = let rest = split_on sep s in if c == sep then [] ∷ rest else push_head c rest

-- `parts.join("c")`.
unfoldable pub join_with : ℕ → List Text → Text
join_with sep [] = []
join_with sep (s ∷ []) = s
join_with sep (s ∷ t ∷ ss) = s ++ sep ∷ join_with sep (t ∷ ss)

abbrev pub Lacks : ℕ → Text → Type 0
Lacks sep [] = Unit
Lacks sep (c ∷ s) = ((c == sep) ≡ false) × Lacks sep s

pub split_on-ne-nil : (sep : ℕ) (s : Text) → (split_on sep s ≡ []) → ⊥
unfolding split_on
split_on-ne-nil sep [] e = cc
split_on-ne-nil sep (c ∷ s) e = elim (Bool-cases (c == sep)) [
  | inl h ↦ cc (rw h at e)
  | inr h ↦ push_head-ne-nil c (split_on sep s) (rw h at e)
]
  where
    push_head-ne-nil : (d : ℕ) (ss : List Text) → push_head d ss ≡ [] → ⊥
    push_head-ne-nil d [] e = cc
    push_head-ne-nil d (x ∷ ss) e = cc

pub split_on-append :
    (sep : ℕ) (s t : Text) → Lacks sep s → split_on sep (s ++ sep ∷ t) ≡ s ∷ split_on sep t
unfolding split_on
split_on-append sep [] t h = rw (==-self sep)
split_on-append sep (c ∷ s) t (h, hs) = rw (split_on-append sep s t hs, h)

pub split_on_of_Lacks : (sep : ℕ) (s : Text) → Lacks sep s → split_on sep s ≡ s ∷ []
unfolding split_on
split_on_of_Lacks sep [] h = refl
split_on_of_Lacks sep (c ∷ s) (h, hs) = rw (split_on_of_Lacks sep s hs, h)

-- Parts without the separator come back from the joined text.
pub split_on-join_with :
    (sep : ℕ) (p : Text) (ps : List Text)
    → All (Lacks sep) (p ∷ ps)
    → split_on sep (join_with sep (p ∷ ps)) ≡ p ∷ ps
unfolding join_with
split_on-join_with sep p [] (h, _) = split_on_of_Lacks sep p h
split_on-join_with sep p (q ∷ ps) (h, hs) =
    split_on-append sep p _ h ∙ ap (λ r. p ∷ r) (split_on-join_with sep q ps hs)

join_with-push_head :
    (sep c : ℕ) (ss : List Text) → join_with sep (push_head c ss) ≡ c ∷ join_with sep ss
unfolding join_with
join_with-push_head sep c [] = refl
join_with-push_head sep c (s ∷ []) = refl
join_with-push_head sep c (s ∷ t ∷ ss) = refl

join_with-cons_nil :
    (sep : ℕ) (ss : List Text) → (ss ≡ [] → ⊥) → join_with sep ([] ∷ ss) ≡ sep ∷ join_with sep ss
unfolding join_with
join_with-cons_nil sep [] h = absurd (h refl)
join_with-cons_nil sep (s ∷ ss) h = refl

-- Splitting and joining gives the text back.
pub join_with-split_on : (sep : ℕ) (s : Text) → join_with sep (split_on sep s) ≡ s
unfolding split_on
join_with-split_on sep [] = unfold join_with in refl
join_with-split_on sep (c ∷ s) = elim (Bool-cases (c == sep)) [
  | inl h ↦ rw h (
      join_with-cons_nil sep (split_on sep s) (split_on-ne-nil sep s)
      ∙ ap₂ ◌∷◌ (sym ((==_iff c sep).0 h)) (join_with-split_on sep s))
  | inr h ↦
      rw h (join_with-push_head sep c (split_on sep s) ∙ ap (λ r. c ∷ r) (join_with-split_on sep s))
]

-- `s.split(/\r?\n/)`.
unfoldable pub split_crlf : Text → List Text
split_crlf [] = [] ∷ []
split_crlf (c ∷ []) = if c == 10 then [] ∷ [] ∷ [] else (c ∷ []) ∷ []
split_crlf (c ∷ d ∷ s) =
    let past_one = split_crlf (d ∷ s) in
    let past_two = split_crlf s in
    if c == 10
    then [] ∷ past_one
    else if c == 13 && d == 10
    then [] ∷ past_two
    else push_head c past_one

-- `s.endsWith("c")`.
abbrev pub ends_with : ℕ → Text → Bool
ends_with e [] = false
ends_with e (c ∷ []) = c == e
ends_with e (c ∷ d ∷ s) = ends_with e (d ∷ s)

-- `xs.pop()`, without its result; `s.slice(0, -1)`.
abbrev pub drop_last : {A : Type 0} → List A → List A
drop_last [] = []
drop_last (x ∷ []) = []
drop_last (x ∷ y ∷ xs) = x ∷ drop_last (y ∷ xs)

pub drop_last-snoc : {A : Type 0} (xs : List A) (y : A) → drop_last (xs ++ y ∷ []) ≡ xs
drop_last-snoc [] y = refl
drop_last-snoc (x ∷ []) y = refl
drop_last-snoc (x ∷ z ∷ xs) y = ap (λ t. x ∷ t) (drop_last-snoc (z ∷ xs) y)

pub ends_with-snoc : (c : ℕ) (s : Text) → ends_with c (s ++ c ∷ []) ≡ true
ends_with-snoc c [] = ==-self c
ends_with-snoc c (d ∷ []) = ==-self c
ends_with-snoc c (d ∷ e ∷ s) = ends_with-snoc c (e ∷ s)

split_crlf-split_on : (s : Text) → Lacks 13 s → split_crlf s ≡ split_on 10 s
unfolding split_crlf split_on
split_crlf-split_on [] h = refl
split_crlf-split_on (c ∷ []) h = refl
split_crlf-split_on (c ∷ d ∷ s) (h, hs) = rw (h, split_crlf-split_on (d ∷ s) hs)

push_head-snoc :
    (c : ℕ) (ss : List Text) (t : Text)
    → (ss ≡ [] → ⊥)
    → push_head c (ss ++ t ∷ []) ≡ push_head c ss ++ t ∷ []
push_head-snoc c [] t h = absurd (h refl)
push_head-snoc c (s ∷ ss) t h = refl

pub split_on-snoc : (sep : ℕ) (s : Text) → split_on sep (s ++ sep ∷ []) ≡ split_on sep s ++ [] ∷ []
unfolding split_on
split_on-snoc sep [] = rw (==-self sep)
split_on-snoc sep (c ∷ s) = elim (Bool-cases (c == sep)) [
  | inl e ↦ rw (e, split_on-snoc sep s)
  | inr e ↦
      rw (e, split_on-snoc sep s) (push_head-snoc c (split_on sep s) [] (split_on-ne-nil sep s))
]

Lacks-snoc : (c d : ℕ) (s : Text) → Lacks c s → (d == c) ≡ false → Lacks c (s ++ d ∷ [])
Lacks-snoc c d [] h e = (e, tt)
Lacks-snoc c d (x ∷ s) (h, hs) e = (h, Lacks-snoc c d s hs e)

-- Without carriage returns, the lines of a text that ends in a newline join to the text before it.
pub lines-snoc : (s : Text) → Lacks 13 s → join_with 10 (drop_last (split_crlf (s ++ 10 ∷ []))) ≡ s
lines-snoc s h =
    rw
      (
        split_crlf-split_on (s ++ 10 ∷ []) (Lacks-snoc 13 10 s h refl),
        split_on-snoc 10 s,
        drop_last-snoc (split_on 10 s) [],
      )
      (join_with-split_on 10 s)

trim_end-snoc : (s : Text) (c : ℕ) → is_space c ≡ false → trim_end (s ++ c ∷ []) ≡ s ++ c ∷ []
unfolding trim_end
trim_end-snoc [] c h = rw h
trim_end-snoc (d ∷ []) c h = rw h
trim_end-snoc (d ∷ e ∷ s) c h = ap (drop_space_end d) (trim_end-snoc (e ∷ s) c h)

trim-cons :
    (c : ℕ) (s t : Text) (d : ℕ)
    → is_space c ≡ false
    → is_space d ≡ false
    → c ∷ s ≡ t ++ d ∷ []
    → trim (c ∷ s) ≡ c ∷ s
unfolding trim
trim-cons c s t d hc hd e = rw hc (ap trim_end e ∙ trim_end-snoc t d hd ∙ sym e)

-- A text that begins and ends with no white space is left as it is.
pub trim_of_tight :
    (text : Text) (c : ℕ) (s t : Text) (d : ℕ)
    → is_space c ≡ false
    → is_space d ≡ false
    → text ≡ c ∷ s
    → text ≡ t ++ d ∷ []
    → trim text ≡ text
trim_of_tight text c s t d hc hd first last =
    ap trim first ∙ trim-cons c s t d hc hd (sym first ∙ last) ∙ sym first
