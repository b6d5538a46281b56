-- ===== src/Security/Characters.antt =====
-- Texts as the lists of their code points, and Python's `in`, `lower`, and the search for `(.)\1{3}`.
use Prim.Native.Char.{code}
use fastapi_hyperf.Common.{
  ℕ, ◌+◌, String, Bool, true, false, ◌&&◌, ◌||◌, not, List, [], ◌∷◌, ◌++◌, ◌≡◌, refl, arith, eqb,
  leb, if◌then◌else◌, ap, ◌↔◌, inl, inr, eqb_refl, Bool-cases,
}

unfoldable pub characters : String → List ℕ
characters String.[] = []
characters (String.◌∷◌ c s) = code c ∷ characters s

-- s.startswith(p)
unfoldable pub starts_with : List ℕ → List ℕ → Bool
starts_with [] s = true
starts_with (c ∷ p) [] = false
starts_with (c ∷ p) (d ∷ s) = eqb c d && starts_with p s

-- p in s
unfoldable pub occurs : List ℕ → List ℕ → Bool
occurs p [] = starts_with p []
occurs p (c ∷ s) = starts_with p (c ∷ s) || occurs p s

-- s.lower(), as far as it makes ASCII characters: of the others only the Kelvin sign and the dotted
-- capital I do
unfoldable pub lower : List ℕ → List ℕ
lower [] = []
lower (c ∷ s) =
    let rest = lower s in
    if leb 65 c && leb c 90
    then (c + 32) ∷ rest
    else if eqb c 0x212a
    then 107 ∷ rest
    else if eqb c 0x130
    then 105 ∷ (0x307 ∷ rest)
    else c ∷ rest

-- re.search(r"(.)\1{3}", s); `.` is any character but the line feed
unfoldable pub repeats : List ℕ → Bool
repeats (a ∷ (b ∷ (c ∷ (d ∷ s)))) =
    (not (eqb a 10) && (eqb a b && (eqb a c && eqb a d))) || repeats (b ∷ (c ∷ (d ∷ s)))
repeats s = false

-- an occurrence, by the parts of the text
abbrev pub Occurs : List ℕ → List ℕ → Type 0
Occurs p s = (before : List ℕ) × (after : List ℕ) × (s ≡ before ++ (p ++ after))

abbrev pub Repeats : List ℕ → Type 0
Repeats s = (c : ℕ) × (eqb c 10 ≡ false) × Occurs (c ∷ (c ∷ (c ∷ (c ∷ [])))) s

starts_with-split : (p s : List ℕ) → starts_with p s ≡ true → (after : List ℕ) × (s ≡ p ++ after)
unfolding starts_with
starts_with-split [] s h = (s, refl)
starts_with-split (c ∷ p) [] h = ground arith
starts_with-split (c ∷ p) (d ∷ s) h =
    let (after, e) = starts_with-split p s (ground (arith, h)) in (after, ground (arith, h, e))

starts_with-append : (p after : List ℕ) → starts_with p (p ++ after) ≡ true
unfolding starts_with
starts_with-append [] after = refl
starts_with-append (c ∷ p) after = ground (arith, starts_with-append p after)

occurs-Occurs : (p s : List ℕ) → occurs p s ≡ true → Occurs p s
unfolding occurs
occurs-Occurs p [] h = let (after, e) = starts_with-split p [] h in ([], after, e)
occurs-Occurs p (c ∷ s) h = elim (Bool-cases (starts_with p (c ∷ s))) [
  | inl here ↦ let (after, e) = starts_with-split p (c ∷ s) here in ([], after, e)
  | inr later ↦
      let (before, after, e) = occurs-Occurs p s (ground (arith, h, later)) in
      (c ∷ before, after, ap (◌∷◌ c) e)
]

occurs-starts_with : (p s : List ℕ) → starts_with p s ≡ true → occurs p s ≡ true
unfolding occurs
occurs-starts_with p [] h = h
occurs-starts_with p (c ∷ s) h = ground (arith, h)

occurs-append : (p before after : List ℕ) → occurs p (before ++ (p ++ after)) ≡ true
unfolding occurs
occurs-append p [] after =
    ground (arith, starts_with-append p after, occurs-starts_with p (p ++ after))
occurs-append p (c ∷ before) after = ground (arith, occurs-append p before after)

-- A search finds a text exactly if the text occurs.
pub occurs_iff : (p s : List ℕ) → (occurs p s ≡ true) ↔ Occurs p s
occurs_iff p s = (occurs-Occurs p s, λ (before, after, e). rw e (occurs-append p before after))

repeats-Repeats : (s : List ℕ) → repeats s ≡ true → Repeats s
unfolding repeats
repeats-Repeats [] h = ground arith
repeats-Repeats (a ∷ []) h = ground arith
repeats-Repeats (a ∷ (b ∷ [])) h = ground arith
repeats-Repeats (a ∷ (b ∷ (c ∷ []))) h = ground arith
repeats-Repeats (a ∷ (b ∷ (c ∷ (d ∷ s)))) h =
    elim (Bool-cases (not (eqb a 10) && (eqb a b && (eqb a c && eqb a d)))) [
      | inl here ↦ (a, ground (arith, here), ([], s, ground (arith, here)))
      | inr later ↦
          let (x, n, (before, after, e)) =
            repeats-Repeats (b ∷ (c ∷ (d ∷ s))) (ground (arith, h, later)) in
          (x, n, (a ∷ before, after, ap (◌∷◌ a) e))
    ]

repeats-cons : (a : ℕ) (s : List ℕ) → repeats s ≡ true → repeats (a ∷ s) ≡ true
unfolding repeats
repeats-cons a [] h = ground arith
repeats-cons a (b ∷ []) h = ground arith
repeats-cons a (b ∷ (c ∷ [])) h = ground arith
repeats-cons a (b ∷ (c ∷ (d ∷ s))) h = ground (arith, h)

repeats-append :
    (c : ℕ) (before after : List ℕ)
    → eqb c 10 ≡ false
    → repeats (before ++ (c ∷ (c ∷ (c ∷ (c ∷ after))))) ≡ true
unfolding repeats
repeats-append c [] after h = ground (arith, h, eqb_refl c)
repeats-append c (b ∷ before) after h = repeats-cons b _ (repeats-append c before after h)

-- The regular expression finds something exactly if a character other than the line feed stands four
-- times in a row.
pub repeats_iff : (s : List ℕ) → (repeats s ≡ true) ↔ Repeats s
repeats_iff s =
    (repeats-Repeats s, λ (c, h, (before, after, e)). rw e (repeats-append c before after h))
