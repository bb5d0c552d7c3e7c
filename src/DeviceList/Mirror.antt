-- ===== src/DeviceList/Mirror.antt =====
-- djmount/device_list.c: the identifiers and names of the list stay distinct, and whoever follows the
-- notifications knows the names of the list.
pub mod Changes
use djmount.Base.{
  ℕ, Bool, true, false, ◌≡◌, ◌≢◌, refl, sym, ap, ◌∙◌, subst, inl, inr, List, [], ◌∷◌, ◌++◌, Option,
  none, some, map, append_assoc, append-nil,
}
use mathlib.Core.List.{map-append}
use djmount.Base.Lists.{Bytes, bytes_eq, bytes_eq_refl, bytes_eq_sound, All}
use djmount.Base.Tests.{if◌then◌else◌, Bool-cases, Option-cases}
use djmount.Base.Distinct.{Distinct, Distinct-end, Distinct-drop}
use djmount.DeviceList.{
  DeviceNode, EventType, device_added, device_removed, Effect, notified, searched, State, Outside,
  Position, find_id, get_device_list_node_from_id, make_device_name, or_empty, base_name, candidate,
}
use djmount.DeviceList.Names.{names, make_device_name_lem}
use djmount.DeviceList.Find.{ids, find_id-none, find_id-some}
use djmount.DeviceList.Changes.{notify_update}

abbrev remove_first : Bytes → List Bytes → List Bytes
remove_first name [] = []
remove_first name (x ∷ xs) = if bytes_eq x name then xs else x ∷ remove_first name xs

-- What an observer who starts with no names does on a notification.
abbrev observe : Effect → List Bytes → List Bytes
observe (notified device_added name) v = v ++ name ∷ []
observe (notified device_removed name) v = remove_first name v
observe (searched seconds target) v = v

-- The names that an observer knows after the effects, the last one first.
abbrev pub observed : List Effect → List Bytes
observed [] = []
observed (e ∷ es) = observe e (observed es)

-- The identifiers of the nodes differ, their names differ, and an observer of the notifications knows
-- just these names, in their order.
abbrev pub Mirrors : {W : Type 0} → List DeviceNode → State W → Type 0
Mirrors ns s =
    Distinct (ids ns)
    × Distinct (names ns)
    × (s.state_update_fun ≡ true → observed s.effects ≡ names ns)

remove_first_at :
    (xs : List Bytes) (x : Bytes) (ys : List Bytes)
    → All (λ y. y ≢ x) xs
    → remove_first x (xs ++ x ∷ ys) ≡ xs ++ ys
remove_first_at [] x ys h = rw (bytes_eq_refl x) refl
remove_first_at (z ∷ xs) x ys h = elim (Bool-cases (bytes_eq z x)) [
  | inl same ↦ absurd (h.0 (bytes_eq_sound z x same))
  | inr other ↦ rw other (ap (λ l. z ∷ l) (remove_first_at xs x ys h.1))
]

All-middle {ℓ κ} :
    {A : Type ℓ} (P : A → Type κ) (xs : List A) (x : A) (ys : List A) → All P (xs ++ x ∷ ys) → P x
All-middle P [] x ys h = h.0
All-middle P (z ∷ xs) x ys h = All-middle P xs x ys h.1

-- The elements before one of a list of distinct elements are others.
before_differs {ℓ} :
    {A : Type ℓ} (xs : List A) (x : A) (ys : List A) → Distinct (xs ++ x ∷ ys) → All (λ y. y ≢ x) xs
before_differs [] x ys d = tt
before_differs (z ∷ xs) x ys d =
    (λ e. All-middle (λ y. y ≢ z) xs x ys d.0 (sym e), before_differs xs x ys d.1)

pub Distinct-after {ℓ} :
    {A : Type ℓ} (xs : List A) (x : A) (ys : List A) → Distinct (xs ++ x ∷ ys) → All (λ y. y ≢ x) ys
Distinct-after [] x ys d = d.0
Distinct-after (z ∷ xs) x ys d = Distinct-after xs x ys d.1

pub ids-at :
    (b : List DeviceNode) (n : DeviceNode) (a : List DeviceNode)
    → ids (b ++ n ∷ a) ≡ ids b ++ n.device_id ∷ ids a
ids-at b n a = map-append _ b (n ∷ a)

names-at :
    (b : List DeviceNode) (n : DeviceNode) (a : List DeviceNode)
    → names (b ++ n ∷ a) ≡ names b ++ n.name ∷ names a
names-at b n a = map-append _ b (n ∷ a)

module _ {W : Type 0} where
  -- The fields of a node other than its identifier and its name do not matter.
  pub Mirrors-same :
      (b : List DeviceNode) (n m : DeviceNode) (a : List DeviceNode) (s : State W)
      → n.device_id ≡ m.device_id
      → n.name ≡ m.name
      → Mirrors (b ++ n ∷ a) s
      → Mirrors (b ++ m ∷ a) s
  Mirrors-same b n m a s same same' (i, d, v) =
      let at : ids (b ++ n ∷ a) ≡ ids (b ++ m ∷ a) = ids-at b n a ∙ rw same (sym (ids-at b m a)) in
      let at' : names (b ++ n ∷ a) ≡ names (b ++ m ∷ a) =
        names-at b n a ∙ rw same' (sym (names-at b m a)) in
      (subst Distinct at i, subst Distinct at' d, λ on. v on ∙ at')

  notify_update-same :
      (type : EventType) (n : DeviceNode) (s : State W)
      → (notify_update type n s).state_update_fun ≡ s.state_update_fun
  unfolding notify_update
  notify_update-same type n s = elim (Bool-cases s.state_update_fun) [
    | inl on ↦ rw on refl
    | inr off ↦ rw off refl
  ]

  pub notify_update-list :
      (type : EventType) (n : DeviceNode) (s : State W)
      → (notify_update type n s).global_device_list ≡ s.global_device_list
  unfolding notify_update
  notify_update-list type n s = elim (Bool-cases s.state_update_fun) [
    | inl on ↦ rw on refl
    | inr off ↦ rw off refl
  ]

  pub Mirrors-notified :
      (type : EventType) (n : DeviceNode) (s : State W)
      → Mirrors s.global_device_list (notify_update type n s)
      → Mirrors (notify_update type n s).global_device_list (notify_update type n s)
  Mirrors-notified type n s h =
      subst (λ ns. Mirrors ns (notify_update type n s)) (sym (notify_update-list type n s)) h

  pub Mirrors-removed :
      (b : List DeviceNode) (n : DeviceNode) (a : List DeviceNode) (s : State W)
      → Mirrors (b ++ n ∷ a) s
      → Mirrors (b ++ a) (notify_update device_removed n s)
  unfolding notify_update
  Mirrors-removed b n a s (i, d, v) =
      let i' = subst Distinct (ids-at b n a) i in
      let d' = subst Distinct (names-at b n a) d in
      let gone =
        remove_first_at (names b) n.name (names a) (before_differs _ n.name (names a) d') in
      let seen : s.state_update_fun ≡ true
          → observed (notify_update device_removed n s).effects ≡ names (b ++ a) =
        λ on. rw (on, v on, names-at b n a) (gone ∙ sym (map-append _ b a)) in
      (
        subst Distinct (sym (map-append _ b a)) (Distinct-drop (ids b) n.device_id (ids a) i'),
        subst Distinct (sym (map-append _ b a)) (Distinct-drop (names b) n.name (names a) d'),
        λ on. seen (sym (notify_update-same device_removed n s) ∙ on),
      )

  pub Mirrors-added :
      (ns : List DeviceNode) (n : DeviceNode) (s : State W)
      → All (λ y. y ≢ n.device_id) (ids ns)
      → All (λ y. y ≢ n.name) (names ns)
      → Mirrors ns s
      → Mirrors (ns ++ n ∷ []) (notify_update device_added n s)
  unfolding notify_update
  Mirrors-added ns n s new new' (i, d, v) =
      let seen : s.state_update_fun ≡ true
          → observed (notify_update device_added n s).effects ≡ names (ns ++ n ∷ []) =
        λ on. rw (on, v on) (sym (names-at ns n [])) in
      (
        subst Distinct (sym (ids-at ns n [])) (Distinct-end (ids ns) n.device_id i new),
        subst Distinct (sym (names-at ns n [])) (Distinct-end (names ns) n.name d new'),
        λ on. seen (sym (notify_update-same device_added n s) ∙ on),
      )
