-- ===== src/Quality/Preference/Best.antt =====
-- What `Wish::resolve` of host-rs/src/quality/preference.rs finds.
use mobile_webcam_bridge.Prelude.{
  ℕ, ◌≡◌, ◌≢◌, ◌↔◌, ◌⊎◌, inl, inr, refl, sym, Bool, true, none, some, List, [], ◌∷◌, arith, In,
  Bool-cases, subst, ◌∙◌,
}
use mobile_webcam_bridge.Quality.Preference.{
  Mode, Wish, valid, matches, keep, F64, then_with, fps_group, fps_rest, area_error, aspect_error,
  mode_cmp, smaller, min_from, min_by, resolve,
}
use Prim.Native.Nat.{compare, Ordering}

-- Lists of numbers compare by the first place where they differ.
abbrev lex : List ℕ → List ℕ → Ordering
lex [] [] = Ordering.eq
lex [] (y ∷ ys) = Ordering.lt
lex (x ∷ xs) [] = Ordering.gt
lex (x ∷ xs) (y ∷ ys) = then_with (compare x y) (lex xs ys)

lex_trans :
    (xs ys zs : List ℕ)
    → lex xs ys ≢ Ordering.gt
    → lex ys zs ≢ Ordering.gt
    → lex xs zs ≢ Ordering.gt
lex_trans [] ys [] p q = λ e. cc
lex_trans [] ys (z ∷ zs) p q = λ e. cc
lex_trans (x ∷ xs) [] zs p q = absurd (p refl)
lex_trans (x ∷ xs) (y ∷ ys) [] p q = absurd (q refl)
lex_trans (x ∷ xs) (y ∷ ys) (z ∷ zs) p q = ground (arith, lex_trans xs ys zs)

lex_refl : (xs : List ℕ) → lex xs xs ≢ Ordering.gt
lex_refl [] = λ e. cc
lex_refl (x ∷ xs) = ground (arith, lex_refl xs)

-- Not above is below or equal, the other way round.
lex_total : (xs ys : List ℕ) → lex xs ys ≡ Ordering.gt → lex ys xs ≢ Ordering.gt
lex_total [] [] p = λ e. cc
lex_total [] (y ∷ ys) p = λ e. cc
lex_total (x ∷ xs) [] p = λ e. cc
lex_total (x ∷ xs) (y ∷ ys) p = ground (arith, lex_total xs ys)

order-cases : (o : Ordering) → (o ≡ Ordering.gt) ⊎ (o ≢ Ordering.gt)
order-cases Ordering.lt = inr (λ e. cc)
order-cases Ordering.eq = inr (λ e. cc)
order-cases Ordering.gt = inl refl

module _ {A : Type 0} (p : A → Bool) (a : A) where
  pub In-keep_of : (xs : List A) → In a (keep p xs) → In a xs × (p a ≡ true)
  In-keep_of [] m = absurd m
  In-keep_of (x ∷ xs) m = elim (Bool-cases (p x)) [
    | inl e ↦ elim (rw e at m) [
      | inl q ↦ (inl q, rw q e)
      | inr r ↦ let (k, t) = In-keep_of xs r in (inr k, t)
    ]
    | inr e ↦ let (k, t) = In-keep_of xs (rw e at m) in (inr k, t)
  ]

  pub In-keep_to : (xs : List A) → In a xs → p a ≡ true → In a (keep p xs)
  In-keep_to [] m t = absurd m
  In-keep_to (x ∷ xs) (inl q) t = let e : p x ≡ true = rw q at t in rw e (inl q)
  In-keep_to (x ∷ xs) (inr r) t = elim (Bool-cases (p x)) [
    | inl e ↦ rw e (inr (In-keep_to xs r t))
    | inr e ↦ rw e (In-keep_to xs r t)
  ]

module _ (f64 : F64) where
  keys : Mode → List ℕ
  keys m =
      fps_group m.fps
      ∷ fps_rest m.fps
      ∷ f64.place (aspect_error f64 m)
      ∷ area_error m
      ∷ m.width
      ∷ m.height
      ∷ []

  mode_cmp-lex : (a b : Mode) → mode_cmp f64 a b ≡ lex (keys a) (keys b)
  unfolding mode_cmp keys
  mode_cmp-lex a b = rw f64.total_cmp_place (ground arith)

  -- `a` is no worse than `b`.
  abbrev pub NotAbove : Mode → Mode → Type 0
  NotAbove a b = mode_cmp f64 a b ≢ Ordering.gt

  NotAbove-trans : (a b c : Mode) → NotAbove a b → NotAbove b c → NotAbove a c
  NotAbove-trans a b c p q =
      rw mode_cmp-lex
        (lex_trans (keys a) (keys b) (keys c) (rw mode_cmp-lex at p) (rw mode_cmp-lex at q))

  NotAbove-refl : (a : Mode) → NotAbove a a
  NotAbove-refl a = rw mode_cmp-lex (lex_refl (keys a))

  smaller_above : (x y : Mode) → mode_cmp f64 x y ≡ Ordering.gt → smaller f64 x y ≡ y
  smaller_above x y e = rw (e, smaller) refl

  smaller-NotAbove : (x y : Mode) → NotAbove x y → smaller f64 x y ≡ x
  smaller-NotAbove x y n = ground (arith, n)

  above_flip : (x y : Mode) → mode_cmp f64 x y ≡ Ordering.gt → NotAbove y x
  above_flip x y e = rw mode_cmp-lex (lex_total (keys x) (keys y) (rw mode_cmp-lex at e))

  smaller_least : (x y : Mode) → NotAbove (smaller f64 x y) x × NotAbove (smaller f64 x y) y
  smaller_least x y = elim (order-cases (mode_cmp f64 x y)) [
    | inl e ↦
        let s = smaller_above x y e in
        (
          subst (λ z. NotAbove z x) (sym s) (above_flip x y e),
          subst (λ z. NotAbove z y) (sym s) (NotAbove-refl y),
        )
    | inr n ↦
        let s = smaller-NotAbove x y n in
        (subst (λ z. NotAbove z x) (sym s) (NotAbove-refl x), subst (λ z. NotAbove z y) (sym s) n)
  ]

  smaller_cases : (x y : Mode) → (smaller f64 x y ≡ x) ⊎ (smaller f64 x y ≡ y)
  smaller_cases x y = elim (order-cases (mode_cmp f64 x y)) [
    | inl e ↦ inr (smaller_above x y e)
    | inr n ↦ inl (smaller-NotAbove x y n)
  ]

  In-min_from : (x : Mode) (ys : List Mode) → In (min_from f64 x ys) (x ∷ ys)
  unfolding min_from
  In-min_from x [] = inl refl
  In-min_from x (y ∷ ys) = elim (In-min_from (smaller f64 x y) ys) [
    | inl e ↦ elim (smaller_cases x y) [ inl s ↦ inl (e ∙ s) | inr s ↦ inr (inl (e ∙ s)) ]
    | inr m ↦ inr (inr m)
  ]

  min_from_least :
      (x : Mode) (ys : List Mode) (z : Mode) → In z (x ∷ ys) → NotAbove (min_from f64 x ys) z
  unfolding min_from
  min_from_least x [] z (inl e) = rw e (NotAbove-refl x)
  min_from_least x [] z (inr m) = absurd m
  min_from_least x (y ∷ ys) z (inl e) = rw e (
      NotAbove-trans _ _ _ (min_from_least (smaller f64 x y) ys _ (inl refl)) (smaller_least x y).0)
  min_from_least x (y ∷ ys) z (inr (inl e)) = rw e (
      NotAbove-trans _ _ _ (min_from_least (smaller f64 x y) ys _ (inl refl)) (smaller_least x y).1)
  min_from_least x (y ∷ ys) z (inr (inr m)) = min_from_least (smaller f64 x y) ys z (inr m)

  min_by-some :
      (l : List Mode) (m : Mode)
      → min_by f64 l ≡ some m
      → In m l × ((z : Mode) → In z l → NotAbove m z)
  min_by-some [] m e = cc
  min_by-some (x ∷ xs) m e =
      let q : min_from f64 x xs ≡ m = cc in
      (
        subst (λ k. In k (x ∷ xs)) q (In-min_from x xs),
        λ z i. subst (λ k. NotAbove k z) q (min_from_least x xs z i),
      )

  -- The mode that a wish resolves to is one that the phone advertised, usable, of the size and the
  -- rate that the wish names where it names them; and no advertised mode that matches is better.
  pub resolve_best :
      (w : Wish) (modes : List Mode) (m : Mode)
      → resolve f64 w modes ≡ some m
      → (valid w ≡ true)
        × In m modes
        × (matches w m ≡ true)
        × ((z : Mode) → In z modes → matches w z ≡ true → NotAbove m z)
  unfolding resolve
  resolve_best w modes m e =
      let v : valid w ≡ true = ground arith in
      let f : min_by f64 (keep (matches w) modes) ≡ some m = rw v at e in
      let (i, least) = min_by-some (keep (matches w) modes) m f in
      let (j, k) = In-keep_of (matches w) m modes i in
      (v, j, k, λ z a b. least z (In-keep_to (matches w) z modes a b))

  min_by-none : (l : List Mode) → min_by f64 l ≡ none → (z : Mode) → In z l → ⊥
  min_by-none [] e z i = i
  min_by-none (x ∷ xs) e z i = cc

  min_by_of : (l : List Mode) (z : Mode) → In z l → (m : Mode) × (min_by f64 l ≡ some m)
  min_by_of [] z i = absurd i
  min_by_of (x ∷ xs) z i = (_, refl)

  -- A valid wish resolves as soon as one advertised mode matches; any other wish never does.
  pub resolve_iff :
      (w : Wish) (modes : List Mode)
      → ((m : Mode) × (resolve f64 w modes ≡ some m))
        ↔ ((valid w ≡ true) × (z : Mode) × In z modes × (matches w z ≡ true))
  unfolding resolve
  resolve_iff w modes = (
    λ (m, e). let (v, j, k, _) = resolve_best w modes m e in (v, m, j, k),
    λ (v, z, i, k).
        rw v (min_by_of (keep (matches w) modes) z (In-keep_to (matches w) z modes i k)),
  )
