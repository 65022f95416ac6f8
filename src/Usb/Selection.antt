-- ===== src/Usb/Selection.antt =====
-- Which phone `reconcile_selection` of host-rs/src/usb.rs selects.
use mobile_webcam_bridge.Prelude.{
  ◌≡◌, ◌⊎◌, inl, inr, refl, sym, subst, ap, ◌∙◌, Bool, true, false, List, [], ◌∷◌, Option, none,
  some, arith, In, Bool-cases, Option-cases,
}
use mobile_webcam_bridge.Wire.Bytes.{same_refl}
use mobile_webcam_bridge.Usb.{
  DeviceId, Candidate, same_id, same_port, any_same, find_port, suggestions, only,
  reconcile_selection,
}

-- A candidate of the list has this id, and what else is asked of it.
abbrev pub Offers : (Candidate → Type 0) → DeviceId → List Candidate → Type 0
Offers P id [] = ⊥
Offers P id (c ∷ cs) = ((c.id ≡ id) × P c) ⊎ Offers P id cs

abbrev pub OnPort : DeviceId → Candidate → Type 0
OnPort current c = same_port c.id current ≡ true

abbrev pub Suggested : Candidate → Type 0
Suggested c = c.suggested ≡ true

same_port_refl : (id : DeviceId) → same_port id id ≡ true
unfolding same_port
same_port_refl id = ground (arith, same_refl id.ports)

same_id-same_port : (a b : DeviceId) → same_id a b ≡ true → same_port a b ≡ true
unfolding same_id same_port
same_id-same_port a b e = ground arith

find_port-Offers :
    (current id : DeviceId) (cs : List Candidate)
    → find_port current cs ≡ some id
    → Offers (OnPort current) id cs
unfolding find_port
find_port-Offers current id [] e = ground arith
find_port-Offers current id (c ∷ cs) e = elim (Bool-cases (same_port c.id current)) [
  | inl p ↦ inl (ground arith, p)
  | inr p ↦ inr (find_port-Offers current id cs (ground arith))
]

not-Offers-port :
    (current id : DeviceId) (cs : List Candidate)
    → find_port current cs ≡ none
    → Offers (OnPort current) id cs
    → ⊥
unfolding find_port
not-Offers-port current id [] e o = o
not-Offers-port current id (c ∷ cs) e (inl (s, p)) = ground arith
not-Offers-port current id (c ∷ cs) e (inr o) = not-Offers-port current id cs (ground arith) o

any_same-Offers :
    (current : DeviceId) (cs : List Candidate)
    → any_same current cs ≡ true
    → (id : DeviceId) × Offers (OnPort current) id cs
unfolding any_same
any_same-Offers current [] e = ground arith
any_same-Offers current (c ∷ cs) e = elim (Bool-cases (same_id c.id current)) [
  | inl p ↦ (c.id, inl (refl, same_id-same_port c.id current p))
  | inr p ↦ let (id, o) = any_same-Offers current cs (ground arith) in (id, inr o)
]

Offers-port :
    (current id : DeviceId) (cs : List Candidate)
    → Offers (OnPort current) id cs
    → same_port id current ≡ true
Offers-port current id [] o = absurd o
Offers-port current id (c ∷ cs) (inl (e, p)) = rw (← e) p
Offers-port current id (c ∷ cs) (inr o) = Offers-port current id cs o

-- The ids that are suggested, and no other.
suggestions-Offers :
    (id : DeviceId) (cs : List Candidate) → In id (suggestions cs) → Offers Suggested id cs
unfolding suggestions
suggestions-Offers id [] i = i
suggestions-Offers id (c ∷ cs) i = elim (Bool-cases c.suggested) [
  | inl s ↦
      let i' : (id ≡ c.id) ⊎ In id (suggestions cs) = rw s at i in
      elim i' [ inl e ↦ inl (sym e, s) | inr j ↦ inr (suggestions-Offers id cs j) ]
  | inr s ↦ let i' : In id (suggestions cs) = rw s at i in inr (suggestions-Offers id cs i')
]

Offers-suggestions :
    (id : DeviceId) (cs : List Candidate) → Offers Suggested id cs → In id (suggestions cs)
unfolding suggestions
Offers-suggestions id [] o = o
Offers-suggestions id (c ∷ cs) (inl (e, s)) = rw s (inl (sym e))
Offers-suggestions id (c ∷ cs) (inr o) = ground (arith, Offers-suggestions id cs o)

only-some : (ids : List DeviceId) (id : DeviceId) → only ids ≡ some id → ids ≡ id ∷ []
only-some [] id e = ground arith
only-some (x ∷ []) id e = ground arith
only-some (x ∷ y ∷ ids) id e = ground arith

-- The only candidate that is suggested.
abbrev pub OnlySuggested : DeviceId → List Candidate → Type 0
OnlySuggested id cs =
    Offers Suggested id cs × ((other : DeviceId) → Offers Suggested other cs → other ≡ id)

only-OnlySuggested :
    (id : DeviceId) (cs : List Candidate) → only (suggestions cs) ≡ some id → OnlySuggested id cs
only-OnlySuggested id cs e =
    let one = only-some (suggestions cs) id e in
    (
      suggestions-Offers id cs (rw one (inl refl)),
      λ other o.
          let i : In other (id ∷ []) = subst (In other) one (Offers-suggestions other cs o) in
          elim i [ inl p ↦ p | inr z ↦ absurd z ],
    )

-- Why a device is selected after `reconcile_selection`: it was before, a candidate stands at the port
-- of the device that was, or it is the only one that is suggested, where the phone was lost and
-- nothing stands at its port, or where nothing was selected or lost.
pub data Reason (lost : Bool) (devices : List Candidate) (id : DeviceId)
    : Option DeviceId → Type 0 where
  kept : (current : DeviceId) → id ≡ current → Reason lost devices id (some current)
  at_port :
      (current : DeviceId)
      → Offers (OnPort current) id devices
      → Reason lost devices id (some current)
  back :
      (current : DeviceId)
      → lost ≡ true
      → ((other : DeviceId) → Offers (OnPort current) other devices → ⊥)
      → OnlySuggested id devices
      → Reason lost devices id (some current)
  found : lost ≡ false → OnlySuggested id devices → Reason lost devices id none

-- A selection is never a guess: each selected device has one of these reasons.
pub reconcile_selection-Reason :
    (selected : Option DeviceId) (lost : Bool) (devices : List Candidate) (id : DeviceId)
    → (reconcile_selection selected lost devices).0 ≡ some id
    → Reason lost devices id selected
unfolding reconcile_selection
reconcile_selection-Reason none false devices id e = found refl (only-OnlySuggested id devices e)
reconcile_selection-Reason none true devices id e = ground arith
reconcile_selection-Reason (some current) lost devices id e =
    elim (Bool-cases (any_same current devices)) [
      | inl a ↦ kept current (ground arith)
      | inr a ↦ elim (Option-cases (find_port current devices)) [
        | inr (found_id, f) ↦
            let same : found_id ≡ id = ground arith in
            at_port current (find_port-Offers current id devices (f ∙ ap some same))
        | inl f ↦ elim (Bool-cases lost) [
          | inr l ↦ kept current (ground arith)
          | inl l ↦ elim (Option-cases (only (suggestions devices))) [
            | inl o ↦ kept current (ground arith)
            | inr (one, o) ↦
                let same : one ≡ id = ground arith in
                back current l (λ other p. not-Offers-port current other devices f p)
                  (only-OnlySuggested id devices (o ∙ ap some same))
          ]
        ]
      ]
    ]

-- The phone's port is followed: where a candidate stands at the port of the selected device, the
-- device that is selected next stands at it too, and none is lost.
pub reconcile_selection-port :
    (current other : DeviceId) (lost : Bool) (devices : List Candidate)
    → Offers (OnPort current) other devices
    → (id : DeviceId) × (reconcile_selection (some current) lost devices ≡ (some id, false))
      × (same_port id current ≡ true)
unfolding reconcile_selection
reconcile_selection-port current other lost devices o =
    elim (Bool-cases (any_same current devices)) [
      | inl a ↦ (current, rw a refl, same_port_refl current)
      | inr a ↦ elim (Option-cases (find_port current devices)) [
        | inl f ↦ absurd (not-Offers-port current other devices f o)
        | inr (id, f) ↦ (
          id,
          rw (a, f) refl,
          Offers-port current id devices (find_port-Offers current id devices f),
        )
      ]
    ]
