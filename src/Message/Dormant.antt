-- ===== src/Message/Dormant.antt =====
-- kernel/message_queue.c: no queue is ever created, since the pointers to the queues stay NULL.
use advanced_operating_syste.Base.{
  ℕ, zero, suc, ◌+◌, ◌≡◌, ◌⊎◌, inl, inr, refl, ◌∙◌, sym, subst, Bool, true, false, Option, none,
  some, List, [], ◌∷◌, arith, ◌==◌, ◌>>=◌, Bool-cases,
}
use advanced_operating_syste.Base.Int.{ℤ, pos, negsuc, ltb_ℤ}
use advanced_operating_syste.Process.State.{Kernel}
use advanced_operating_syste.Message.State.{System, pointer, deref, find_queue, find_from}
use advanced_operating_syste.Message.Calls.{
  Allocations, Answer, returned, alloc_queues, fill_queue, pcount, pcreate, pdelete, preset,
}
use advanced_operating_syste.Message.Transfers.{preceive, psend}

abbrev pub nulls : List ℕ
nulls = 0 ∷ 0 ∷ 0 ∷ 0 ∷ 0 ∷ []

-- There is no queue, and no pointer that could lead to one.
pub record Dormant (s : System) : Type 0 where
  pub no_queue : s.nb_queue ≡ 0
  pub no_pointer : (s.queues ≡ none) ⊎ (s.queues ≡ some nulls)

-- The answers of all the calls while there is no queue.
pub record Refuses (s : System) : Type 0 where
  pub counts : (fid : ℤ) (count : Bool) → pcount fid count s ≡ some (negsuc 0, [])
  pub deletes : (fid : ℤ) → pdelete fid s ≡ some (s, returned (negsuc 0))
  pub resets : (fid : ℤ) → preset fid s ≡ some (s, returned (negsuc 0))
  pub receives : (fid : ℤ) → preceive fid s ≡ some (s, returned (negsuc 0))
  pub sends : (fid message : ℤ) → psend fid message s ≡ some (s, returned (negsuc 0))
  pub creates :
      (count : ℤ) (mem : Allocations) → ltb_ℤ (pos 0) count ≡ true → pcreate count mem s ≡ none

module _ {ℓ} {R : Type ℓ} (o : Option (List ℕ)) (a b : R) where
  on_none : o ≡ none → (elim o [ some _ ↦ a | none ↦ b ]) ≡ b
  on_none e = rw e refl

  on_some : (xs : List ℕ) → o ≡ some xs → (elim o [ some _ ↦ a | none ↦ b ]) ≡ a
  on_some xs e = rw e refl

module _ (s : System) (d : Dormant s) where
  found_none : (fid : ℤ) → find_queue fid s ≡ some 0
  unfolding find_queue find_from
  found_none fid = rw (d.no_queue, find_from) refl

  deref-null : (i : ℕ) (t : System) → (t.queues ≡ none) ⊎ (t.queues ≡ some nulls) → deref i t ≡ none
  unfolding deref pointer
  deref-null i t (inl e) = rw (e, ◌>>=◌) refl
  deref-null zero t (inr e) = rw (e, ◌>>=◌) refl
  deref-null (suc zero) t (inr e) = rw (e, ◌>>=◌) refl
  deref-null (suc (suc zero)) t (inr e) = rw (e, ◌>>=◌) refl
  deref-null (suc (suc (suc zero))) t (inr e) = rw (e, ◌>>=◌) refl
  deref-null (suc (suc (suc (suc zero)))) t (inr e) = rw (e, ◌>>=◌) refl
  deref-null (suc (suc (suc (suc (suc i))))) t (inr e) = rw (e, ◌>>=◌) refl

  -- The pointers are left as they are, or come as a cleared block.
  alloc_queues-cases :
      (at : ℕ) → (alloc_queues at s ≡ s) ⊎ (alloc_queues at s ≡ record s { queues = some nulls })
  unfolding alloc_queues
  alloc_queues-cases at = elim d.no_pointer [
    | inl e ↦ elim (Bool-cases (at == 0)) [
      | inl failed ↦ inl (on_none s.queues _ _ e ∙ rw failed refl)
      | inr given ↦ inr (on_none s.queues _ _ e ∙ rw given refl)
    ]
    | inr e ↦ inl (on_some s.queues _ _ nulls e)
  ]

  alloc_queues-Dormant : (at : ℕ) → Dormant (alloc_queues at s)
  alloc_queues-Dormant at = elim (alloc_queues-cases at) [
    | inl e ↦ subst Dormant (sym e) d
    | inr e ↦ subst Dormant (sym e) (record { no_queue = d.no_queue; no_pointer = inr refl })
  ]

  fill_queue-null :
      (i at : ℕ) (count : ℤ) (mem : Allocations)
      → fill_queue i count mem
          (record (alloc_queues at s) { nb_queue = (alloc_queues at s).nb_queue + 1 })
        ≡ none
  unfolding fill_queue
  fill_queue-null i at count mem =
      rw
        (deref-null i (record (alloc_queues at s) { nb_queue = (alloc_queues at s).nb_queue + 1 })
          (alloc_queues-Dormant at).no_pointer)
        refl

  pub Dormant-Refuses : Refuses s
  unfolding pcount pdelete preset preceive psend pcreate
  Dormant-Refuses = record {
    counts = λ fid count. rw (found_none fid, d.no_queue) refl;
    deletes = λ fid. rw (found_none fid, d.no_queue) refl;
    resets = λ fid. rw (found_none fid, d.no_queue) refl;
    receives = λ fid. rw (found_none fid, d.no_queue) refl;
    sends = λ fid message. rw (found_none fid, d.no_queue) refl;
    creates = λ count mem h.
        let fresh = (alloc_queues-Dormant mem.queues_at).no_queue in
        rw (fill_queue-null _ mem.queues_at count mem, h) (ground (arith, fresh));
  }

  refused :
      (count : ℤ) (mem : Allocations)
      → ltb_ℤ (pos 0) count ≡ false
      → pcreate count mem s ≡ some (alloc_queues mem.queues_at s, negsuc 0)
  unfolding pcreate
  refused count mem h = ground (arith, h)

-- The calls that change something, with their arguments.
pub data Call : Type 0 where
  creates : ℤ → Allocations → Call
  deletes resets receives : ℤ → Call
  sends : ℤ → ℤ → Call

unfoldable pub perform : Call → System → Option (System × Answer)
perform (creates count mem) s = pcreate count mem s >>= λ r. some (r.0, returned r.1)
perform (deletes fid) s = pdelete fid s
perform (resets fid) s = preset fid s
perform (receives fid) s = preceive fid s
perform (sends fid message) s = psend fid message s

-- The histories: calls that do not stop the machine, and between them anything that happens to the
-- processes.
pub data Reach (s : System) : System → Type 0 where
  here : Reach s s
  next : {t u : System} {a : Answer} (c : Call) → Reach s t → perform c t ≡ some (u, a) → Reach s u
  meanwhile : {t : System} (k : Kernel) → Reach s t → Reach s (record t { kernel = k })

perform-Dormant :
    (c : Call) (s t : System) (a : Answer) → Dormant s → perform c s ≡ some (t, a) → Dormant t
unfolding perform
perform-Dormant (creates count mem) s t a d e = elim (Bool-cases (ltb_ℤ (pos 0) count)) [
  | inl h ↦ absurd (ground (arith, e, (Dormant-Refuses s d).creates count mem h))
  | inr h ↦
      let run = refused s d count mem h in
      let same : alloc_queues mem.queues_at s ≡ t = ground (arith, e, run) in
      subst Dormant same (alloc_queues-Dormant s d mem.queues_at)
]
perform-Dormant (deletes fid) s t a d e =
    let same : s ≡ t = ground (arith, e, (Dormant-Refuses s d).deletes fid) in subst Dormant same d
perform-Dormant (resets fid) s t a d e =
    let same : s ≡ t = ground (arith, e, (Dormant-Refuses s d).resets fid) in subst Dormant same d
perform-Dormant (receives fid) s t a d e =
    let same : s ≡ t = ground (arith, e, (Dormant-Refuses s d).receives fid) in subst Dormant same d
perform-Dormant (sends fid message) s t a d e =
    let same : s ≡ t = ground (arith, e, (Dormant-Refuses s d).sends fid message) in
    subst Dormant same d

Reach-Dormant : {s t : System} → Dormant s → Reach s t → Dormant t
Reach-Dormant d here = d
Reach-Dormant d (next {t} {u} {a} c reach e) = perform-Dormant c t u a (Reach-Dormant d reach) e
Reach-Dormant d (meanwhile k reach) =
    let held = Reach-Dormant d reach in
    record { no_queue = held.no_queue; no_pointer = held.no_pointer }

-- Once there are no queues, as at the start, there are none after any history of calls that do not
-- stop the machine: each call of `pcount`, `pdelete`, `preset`, `preceive` and `psend` returns -1
-- and changes nothing, and `pcreate` of a positive count writes through a null pointer.
pub Reach-Refuses : {s t : System} → Dormant s → Reach s t → Refuses t
Reach-Refuses d reach = Dormant-Refuses _ (Reach-Dormant d reach)
