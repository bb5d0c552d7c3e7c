-- ===== src/DeviceList/Table/Renewal.antt =====
-- djmount/device_list.c: the searches that `VerifyTimeouts` sends for devices that have just expired.
use djmount.Base.{
  ℕ, ◌≤◌, true, false, ◌≡◌, refl, sym, ap, ◌∙◌, inl, inr, List, [], ◌∷◌, some, arith,
}
use mathlib.Core.List.{Memᴰ}
use mathlib.Core.List.Memᴰ.{head, tail}
use djmount.Base.Tests.{Bool-cases}
use djmount.Base.Int.{pos}
use djmount.DeviceList.{
  DeviceNode, EventType, Effect, searched, State, Outside, int_sub, at_most_neg, device_removed,
}
use djmount.DeviceList.Changes.{
  notify_update, free_node, search_async, verify_node, verify_nodes, verify_timeouts,
}

module _ {W : Type 0} (o : Outside W) where
  notify_update-keeps :
      (type : EventType) (n : DeviceNode) (x : Effect) (s : State W)
      → Memᴰ x s.effects
      → Memᴰ x (notify_update type n s).effects
  unfolding notify_update
  notify_update-keeps type n x s m = elim (Bool-cases s.state_update_fun) [
    | inl on ↦ rw (on, notify_update) (tail m)
    | inr off ↦ rw (off, notify_update) m
  ]

  verify_node-keeps :
      (incr : ℕ) (n : DeviceNode) (x : Effect) (s : State W)
      → Memᴰ x s.effects
      → Memᴰ x (verify_node o incr n s).1.effects
  unfolding verify_node free_node search_async
  verify_node-keeps incr n x s m =
      let e = int_sub n.expires incr in
      elim (Bool-cases (at_most_neg e incr)) [
        | inl late ↦
            rw (late, verify_node)
              (notify_update-keeps device_removed (record n { expires = e }) x s m)
        | inr early ↦ elim (Bool-cases (at_most_neg e 0)) [
          | inl expired ↦ rw (early, expired, verify_node) (tail m)
          | inr fresh ↦ rw (early, fresh, verify_node) m
        ]
      ]

  verify_nodes-keeps :
      (incr : ℕ) (ns : List DeviceNode) (x : Effect) (s : State W)
      → Memᴰ x s.effects
      → Memᴰ x (verify_nodes o incr ns s).1.effects
  unfolding verify_nodes
  verify_nodes-keeps incr [] x s m = m
  verify_nodes-keeps incr (n ∷ ns) x s m =
      verify_nodes-keeps incr ns x (verify_node o incr n s).1 (verify_node-keeps incr n x s m)

  verify_node-search :
      (incr e : ℕ) (n : DeviceNode) (s : State W)
      → n.expires ≡ pos e
      → 1 ≤ e
      → e ≤ incr
      → Memᴰ (searched incr (some n.device_id)) (verify_node o incr n s).1.effects
  unfolding verify_node search_async
  verify_node-search incr e n s expires low high =
      let early : at_most_neg (int_sub n.expires incr) incr ≡ false = rw expires (ground arith) in
      let expired : at_most_neg (int_sub n.expires incr) 0 ≡ true = rw expires (ground arith) in
      rw (early, expired, verify_node) (head refl)

  verify_nodes-search :
      (incr e : ℕ) (ns : List DeviceNode) (n : DeviceNode) (s : State W)
      → Memᴰ n ns
      → n.expires ≡ pos e
      → 1 ≤ e
      → e ≤ incr
      → Memᴰ (searched incr (some n.device_id)) (verify_nodes o incr ns s).1.effects
  unfolding verify_nodes
  verify_nodes-search incr e [] n s m expires low high = elim m [ ]
  verify_nodes-search incr e (x ∷ ns) n s (head same) expires low high =
      verify_nodes-keeps incr ns (searched incr (some n.device_id)) (verify_node o incr x s).1 (
        rw same (
          verify_node-search incr e x s (ap (λ k. DeviceNode.expires k) (sym same) ∙ expires) low
            high))
  verify_nodes-search incr e (x ∷ ns) n s (tail m) expires low high =
      verify_nodes-search incr e ns n (verify_node o incr x s).1 m expires low high

  -- A device whose advertisement ends within the period of a round is not removed in that round: a search for
  -- it is sent.
  pub verify_timeouts-search :
      (incr e : ℕ) (n : DeviceNode) (s : State W)
      → Memᴰ n s.global_device_list
      → n.expires ≡ pos e
      → 1 ≤ e
      → e ≤ incr
      → Memᴰ (searched incr (some n.device_id)) (verify_timeouts o incr s).effects
  unfolding verify_timeouts
  verify_timeouts-search incr e n s m expires low high =
      verify_nodes-search incr e s.global_device_list n s m expires low high
