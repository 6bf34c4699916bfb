-- ===== src/Client/UnicodeSanitize/Combining.antt =====
-- The runs of combining marks after capCombiningRuns.
use unseen_fyi.Prelude.{
  ℕ, ◌+◌, ◌≤◌, ◌≡◌, refl, Bool, true, false, [], ◌∷◌, leb, leb→le, le→leb, min, ap, subst, arith,
  if◌then◌else◌,
}
use unseen_fyi.Client.UnicodeSanitize.{Text, combining_cap, cap_from, cap_combining_runs}

-- No more than four marks in a row, with `run` of them before.
abbrev pub Capped : (ℕ → Bool) → ℕ → Text → Type 0
Capped is_mark run [] = Unit {0}
Capped is_mark run (c ∷ cs) =
    (is_mark c ≡ true → run + 1 ≤ combining_cap)
    × (is_mark c ≡ true → Capped is_mark (run + 1) cs)
    × (is_mark c ≡ false → Capped is_mark 0 cs)

Capped-if :
    (is_mark : ℕ → Bool) (run : ℕ) (b : Bool) (x y : Text)
    → (b ≡ true → Capped is_mark run x)
    → (b ≡ false → Capped is_mark run y)
    → Capped is_mark run (if b then x else y)
Capped-if is_mark run true x y h k = h refl
Capped-if is_mark run false x y h k = k refl

cap_from-Capped :
    (is_mark : ℕ → Bool) (run : ℕ) (cs : Text)
    → Capped is_mark (min run combining_cap) (cap_from is_mark run cs)
unfolding cap_from
cap_from-Capped is_mark run [] = tt
cap_from-Capped is_mark run (c ∷ cs) =
    let kept = cap_from-Capped is_mark (run + 1) cs in
    let fresh = cap_from-Capped is_mark 0 cs in
    Capped-if is_mark (min run combining_cap) (is_mark c) _ _
      (λ mark.
        Capped-if is_mark (min run combining_cap) (leb (run + 1) combining_cap) _ _
          (λ room.
            let low : run + 1 ≤ combining_cap = leb→le (run + 1) combining_cap room in
            (
              (λ _. low_run run low),
              (λ _.
                  subst (λ n. Capped is_mark n (cap_from is_mark (run + 1) cs)) (same_run run low)
                    kept),
              (λ plain. ground arith),
            ))
          (λ full.
            subst (λ n. Capped is_mark n (cap_from is_mark (run + 1) cs)) (full_run run full) kept))
      (λ plain. ((λ mark. ground arith), (λ mark. ground arith), (λ _. fresh)))
  where
    low_run : (run : ℕ) → run + 1 ≤ combining_cap → min run combining_cap + 1 ≤ combining_cap
    low_run run h = ground arith

    same_run :
        (run : ℕ)
        → run + 1 ≤ combining_cap
        → min (run + 1) combining_cap ≡ min run combining_cap + 1
    same_run run h = ground arith

    full_run :
        (run : ℕ)
        → leb (run + 1) combining_cap ≡ false
        → min (run + 1) combining_cap ≡ min run combining_cap
    full_run run h = ground arith

cap_from-id :
    (is_mark : ℕ → Bool) (run : ℕ) (cs : Text)
    → Capped is_mark run cs
    → cap_from is_mark run cs ≡ cs
unfolding cap_from
cap_from-id is_mark run [] h = refl
cap_from-id is_mark run (c ∷ cs) (room, kept, fresh) =
    by_test (is_mark c) refl (λ e. cap_from-id is_mark (run + 1) cs (kept e))
      (λ e. cap_from-id is_mark 0 cs (fresh e))
  where
    by_test :
        (b : Bool)
        → is_mark c ≡ b
        → (is_mark c ≡ true → cap_from is_mark (run + 1) cs ≡ cs)
        → (is_mark c ≡ false → cap_from is_mark 0 cs ≡ cs)
        → (if b
            then (if leb (run + 1) combining_cap
                then c ∷ cap_from is_mark (run + 1) cs
                else cap_from is_mark (run + 1) cs)
            else c ∷ cap_from is_mark 0 cs)
          ≡ c ∷ cs
    by_test true e h k = rw (le→leb (run + 1) combining_cap (room e)) (ap (λ t. c ∷ t) (h e))
    by_test false e h k = ap (λ t. c ∷ t) (k e)

-- After `capCombiningRuns` no more than four combining marks stand in a row, a text of which that holds
-- is left as it is, and so a second time changes nothing.
pub cap_combining_runs-Capped :
    (is_mark : ℕ → Bool) (input : Text)
    → Capped is_mark 0 (cap_combining_runs is_mark input)
      × (Capped is_mark 0 input → cap_combining_runs is_mark input ≡ input)
      × (cap_combining_runs is_mark (cap_combining_runs is_mark input)
          ≡ cap_combining_runs is_mark input)
unfolding cap_combining_runs
cap_combining_runs-Capped is_mark input =
    let once = cap_from-Capped is_mark 0 input in
    (
      once,
      (λ h. cap_from-id is_mark 0 input h),
      cap_from-id is_mark 0 (cap_from is_mark 0 input) once,
    )
