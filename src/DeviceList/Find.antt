-- ===== src/DeviceList/Find.antt =====
-- djmount/device_list.c: the search for the node of an identifier.
use djmount.Base.{◌≡◌, ◌≢◌, refl, ap, subst, inl, inr, List, [], ◌∷◌, ◌++◌, none, some, map}
use djmount.Base.Lists.{Bytes, bytes_eq, bytes_eq_sound, All}
use djmount.Base.Tests.{Bool-cases, Option-cases}
use djmount.DeviceList.{DeviceNode, Position, find_id}
use djmount.DeviceList.Names.{bytes_ne}

abbrev pub ids : List DeviceNode → List Bytes
ids = map (λ n. DeviceNode.device_id n)

-- The position is the one of the first node with the identifier.
abbrev pub IsAt : Bytes → List DeviceNode → Position → Type 0
IsAt id ns p =
    (ns ≡ p.before ++ p.item ∷ p.after)
    × (DeviceNode.device_id p.item ≡ id)
    × All (λ y. y ≢ id) (ids p.before)

pub find_id-none :
    (id : Bytes) (ns : List DeviceNode) → find_id id ns ≡ none → All (λ y. y ≢ id) (ids ns)
unfolding find_id
find_id-none id [] h = tt
find_id-none id (n ∷ ns) h = elim (Bool-cases (bytes_eq n.device_id id)) [
  | inl same ↦
      let q : Position = record { before = []; item = n; after = ns } in
      let e : some q ≡ none = rw same at h in cc
  | inr other ↦ elim (Option-cases (find_id id ns)) [
    | inl missing ↦ (bytes_ne n.device_id id other, find_id-none id ns missing)
    | inr (p, found) ↦
        let q : Position = record p { before = n ∷ p.before } in
        let e : some q ≡ none = rw (other, found) at h in cc
  ]
]

pub find_id-some :
    (id : Bytes) (ns : List DeviceNode) (p : Position) → find_id id ns ≡ some p → IsAt id ns p
unfolding find_id
find_id-some id [] p h = cc
find_id-some id (n ∷ ns) p h = elim (Bool-cases (bytes_eq n.device_id id)) [
  | inl same ↦
      let found : some (record { before = []; item = n; after = ns }) ≡ some p = rw same at h in
      let e : record { before = []; item = n; after = ns } ≡ p = cc in
      subst (IsAt id (n ∷ ns)) e (refl, bytes_eq_sound n.device_id id same, tt)
  | inr other ↦ elim (Option-cases (find_id id ns)) [
    | inl missing ↦ let e : none ≡ some p = rw (other, missing) at h in cc
    | inr (q, found) ↦
        let found' : some (record q { before = n ∷ q.before }) ≡ some p = rw (other, found) at h in
        let e : record q { before = n ∷ q.before } ≡ p = cc in
        let (split, same, before) = find_id-some id ns q found in
        subst (IsAt id (n ∷ ns)) e
          (ap (λ l. n ∷ l) split, same, (bytes_ne n.device_id id other, before))
  ]
]
