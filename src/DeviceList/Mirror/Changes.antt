-- ===== src/DeviceList/Mirror/Changes.antt =====
-- djmount/device_list.c: every operation keeps the list in step with its observer.
use djmount.Base.{
  ℕ, Bool, true, false, ◌≡◌, refl, sym, subst, inl, inr, List, [], ◌∷◌, ◌++◌, Option, none, some,
  append_assoc,
}
use djmount.Base.Lists.{Bytes}
use djmount.Base.Tests.{Bool-cases, Option-cases}
use djmount.Base.Int.{ℤ}
use djmount.Base.Text.{codes}
use djmount.Strings.{clean_file_name}
use djmount.DeviceList.{
  DeviceNode, device_added, device_removed, State, Outside, get_device_list_node_from_id, find_id,
  or_empty, base_name, candidate, int_sub, at_most_neg,
}
use djmount.DeviceList.Names.{make_device_name_lem}
use djmount.DeviceList.Find.{find_id-none, find_id-some}
use djmount.DeviceList.Changes.{
  list_del_node, refreshed, notify_update, free_node, remove_device, remove_nodes, remove_all,
  search_async, refresh_all, add_known, add_node, add_insert, verify_node, verify_nodes,
  verify_timeouts,
}
use djmount.DeviceList.Mirror.{
  Mirrors, Mirrors-same, Mirrors-notified, Mirrors-removed, Mirrors-added,
}

-- A state whose list is mirrored.
abbrev pub IsMirrored : {W : Type 0} → State W → Type 0
IsMirrored s = Mirrors s.global_device_list s

module _ {W : Type 0} (o : Outside W) where
  pub remove_device-IsMirrored :
      (id : Option Bytes) (s : State W) → IsMirrored s → IsMirrored (remove_device o id s).1
  unfolding remove_device get_device_list_node_from_id free_node
  remove_device-IsMirrored none s h = h
  remove_device-IsMirrored (some id) s h = elim (Option-cases (find_id id s.global_device_list)) [
    | inl missing ↦ rw (missing, remove_device) h
    | inr (p, found) ↦
        let (split, same, before) = find_id-some id s.global_device_list p found in
        let deleted = record s { global_device_list = list_del_node p } in
        rw (found, remove_device)
          (Mirrors-notified device_removed p.item deleted
            (Mirrors-removed p.before p.item p.after deleted (subst (λ ns. Mirrors ns s) split h)))
  ]

  remove_nodes-Mirrors :
      (ns : List DeviceNode) (s : State W) → Mirrors ns s → Mirrors [] (remove_nodes o ns s)
  unfolding remove_nodes free_node
  remove_nodes-Mirrors [] s h = h
  remove_nodes-Mirrors (n ∷ ns) s h =
      remove_nodes-Mirrors ns (free_node o n (notify_update device_removed n s))
        (Mirrors-removed [] n ns s h)

  pub remove_all-IsMirrored : (s : State W) → IsMirrored s → IsMirrored (remove_all o s)
  unfolding remove_all
  remove_all-IsMirrored s h = remove_nodes-Mirrors s.global_device_list s h

  pub search_async-Mirrors :
      (seconds : ℕ) (target : Option Bytes) (ns : List DeviceNode) (s : State W)
      → Mirrors ns s
      → Mirrors ns (search_async o seconds target s).1
  unfolding search_async
  search_async-Mirrors seconds target ns s h = h

  pub refresh_all-IsMirrored :
      (b : Bool) (s : State W) → IsMirrored s → IsMirrored (refresh_all o b s).1
  unfolding refresh_all search_async
  refresh_all-IsMirrored true s h = remove_all-IsMirrored s h
  refresh_all-IsMirrored false s h = h

  pub add_known-IsMirrored :
      (id : Bytes) (expires : ℤ) (s s' : State W)
      → add_known o id expires s ≡ some s'
      → IsMirrored s
      → IsMirrored s'
  unfolding add_known get_device_list_node_from_id
  add_known-IsMirrored id expires s s' e h = elim (Option-cases (find_id id s.global_device_list)) [
    | inl missing ↦ let never : none ≡ some s' = rw (missing, add_known) at e in cc
    | inr (p, found) ↦
        let (split, same, before) = find_id-some id s.global_device_list p found in
        let s'' = record s { global_device_list = refreshed p expires } in
        let known : some s'' ≡ some s' = rw (found, add_known) at e in
        let same' : s'' ≡ s' = cc in
        subst IsMirrored same' (
          Mirrors-same p.before p.item (record (p.item) { expires = expires }) p.after s refl refl
            (subst (λ ns. Mirrors ns s) split h))
  ]

  pub add_insert-IsMirrored :
      (id : Bytes) (expires : ℤ) (d : ℕ) (s : State W)
      → IsMirrored s
      → IsMirrored (add_insert o id expires d s)
  unfolding add_insert get_device_list_node_from_id add_node
  add_insert-IsMirrored id expires d s h =
      let base = o.device_get_desc_doc_item d (codes "friendlyName") s.world in
      elim (Option-cases (find_id id s.global_device_list)) [
        | inl missing ↦
            let (k, ge, le, named, (fresh, first)) =
              make_device_name_lem s.global_device_list base in
            let n : DeviceNode = record {
              device_id = id;
              d = d;
              name = candidate (or_empty (clean_file_name (some (base_name base)))) k;
              expires = expires;
            } in
            let added = record s {
              global_device_list = s.global_device_list ++ n ∷ [];
              world = o.device_subscribe_all_events d s.world;
            } in
            rw (missing, named, add_insert)
              (Mirrors-notified device_added n added (
                Mirrors-added s.global_device_list n added
                  (find_id-none id s.global_device_list missing) fresh h))
        | inr (p, found) ↦ rw (found, add_insert) h
      ]

  verify_nodes-Mirrors :
      (incr : ℕ) (b ns : List DeviceNode) (s : State W)
      → Mirrors (b ++ ns) s
      → Mirrors (b ++ (verify_nodes o incr ns s).0) (verify_nodes o incr ns s).1
  unfolding verify_nodes verify_node free_node search_async
  verify_nodes-Mirrors incr b [] s h = h
  verify_nodes-Mirrors incr b (n ∷ ns) s h =
      let e = int_sub n.expires incr in
      let n' = record n { expires = e } in
      elim (Bool-cases (at_most_neg e incr)) [
        | inl late ↦
            let s' = free_node o n' (notify_update device_removed n' s) in
            rw (late, verify_node) (verify_nodes-Mirrors incr b ns s' (Mirrors-removed b n ns s h))
        | inr early ↦
            let one = n' ∷ [] in
            let stays : (s' : State W)
                → Mirrors (b ++ n' ∷ ns) s'
                → Mirrors (b ++ n' ∷ (verify_nodes o incr ns s').0) (verify_nodes o incr ns s').1 =
              λ s' m.
                subst (λ l. Mirrors l (verify_nodes o incr ns s').1)
                  (append_assoc b one (verify_nodes o incr ns s').0)
                  (verify_nodes-Mirrors incr (b ++ one) ns s'
                    (subst (λ l. Mirrors l s') (sym (append_assoc b one ns)) m)) in
            let h' = Mirrors-same b n n' ns s refl refl h in
            elim (Bool-cases (at_most_neg e 0)) [
              | inl expired ↦
                  rw (early, expired, verify_node)
                    (stays (search_async o incr (some n.device_id) s).1 h')
              | inr fresh ↦ rw (early, fresh, verify_node) (stays s h')
            ]
      ]

  pub verify_timeouts-IsMirrored :
      (incr : ℕ) (s : State W) → IsMirrored s → IsMirrored (verify_timeouts o incr s)
  unfolding verify_timeouts
  verify_timeouts-IsMirrored incr s h = verify_nodes-Mirrors incr [] s.global_device_list s h
