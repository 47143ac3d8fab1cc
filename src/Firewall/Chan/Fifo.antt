-- ===== src/Firewall/Chan/Fifo.antt =====
-- Order and bounds of the channel of components/firewall-perimeter/src/chan.rs, over every sequence
-- of operations of its senders and its receiver.
use mathlib.Core.List.{append_assoc, append-nil}
use active_spectral_defense.Base.{
  ℕ, suc, ◌+◌, ◌≤◌, ◌≡◌, refl, sym, ap, ◌∙◌, Bool, true, false, Option, none, some, List, [], ◌∷◌,
  ◌++◌, length, length-append, arith, inl, inr, ◌⊎◌, Bool-cases, leb, ltb, if◌then◌else◌, ◌==◌,
}
use active_spectral_defense.Firewall.Chan.{
  Chan, RecvError, TrySend, sent, TryRecv, received, bounded, try_send, send_step, recv_step,
  try_recv, clone_sender, drop_sender, drop_receiver, receiver_is_alive, drain,
}

-- what senders and receiver do
pub data Op {ℓ} (T : Type ℓ) : Type ℓ where
  op_try_send op_send : T → Op T
  op_recv op_try_recv op_clone op_drop_sender op_drop_receiver : Op T

-- the channel, with all items that a send accepted and all that a receive returned
pub record World {ℓ} (T : Type ℓ) : Type ℓ where
  pub chan : Chan T
  pub accepted : List T
  pub taken : List T

module _ {ℓ} {T : Type ℓ} where
  abbrev accepted_by : T → TrySend T → List T
  accepted_by x sent = x ∷ []
  accepted_by x _ = []

  abbrev sent_in : T → Option (TrySend T) → List T
  sent_in x none = []
  sent_in x (some r) = accepted_by x r

  abbrev taken_by : TryRecv T → List T
  taken_by (received x) = x ∷ []
  taken_by _ = []

  unfoldable pub after_recv : Option (RecvError ⊎ T) × Chan T → World T → World T
  after_recv (some (inr x), c) w = record w { chan = c; taken = w.taken ++ x ∷ [] }
  after_recv (some (inl e), c) w = record w { chan = c }
  after_recv (none, c) w = record w { chan = c }

  unfoldable pub apply : Op T → World T → World T
  apply (op_try_send x) w =
      let (r, c) = try_send x w.chan in
      record w { chan = c; accepted = w.accepted ++ accepted_by x r }
  apply (op_send x) w =
      let (r, c) = send_step x w.chan in record w { chan = c; accepted = w.accepted ++ sent_in x r }
  apply op_recv w = after_recv (recv_step w.chan) w
  apply op_try_recv w =
      let (r, c) = try_recv w.chan in record w { chan = c; taken = w.taken ++ taken_by r }
  apply op_clone w = record w { chan = clone_sender w.chan }
  apply op_drop_sender w = record w { chan = drop_sender w.chan }
  apply op_drop_receiver w = record w { chan = drop_receiver w.chan }

  unfoldable pub run : List (Op T) → World T → World T
  unfolding apply
  run [] w = w
  run (op ∷ ops) w = run ops (apply op w)

  -- what went in is what came out and what is queued, in this order, and the queue is within the
  -- capacity `n`
  pub record IsFifo (n : ℕ) (w : World T) : Type ℓ where
    in_order : w.taken ++ w.chan.queue ≡ w.accepted
    within : length w.chan.queue ≤ n
    capacity : w.chan.max_capacity ≡ n

  push-IsFifo :
      (n : ℕ) (w : World T) (x : T) (c : Chan T)
      → IsFifo n w
      → c.queue ≡ w.chan.queue ++ x ∷ []
      → c.max_capacity ≡ w.chan.max_capacity
      → (leb w.chan.max_capacity (length w.chan.queue)) ≡ false
      → IsFifo n (record w { chan = c; accepted = w.accepted ++ x ∷ [] })
  push-IsFifo n w x c h q m room = record {
    in_order =
        ap (◌++◌ w.taken) q
        ∙ (sym (append_assoc w.taken w.chan.queue (x ∷ []))
            ∙ ap (λ (l : List T). l ++ x ∷ []) h.in_order);
    within =
        let e : length c.queue ≡ length w.chan.queue + 1 =
          ap length q ∙ length-append w.chan.queue (x ∷ []) in
        let cap = h.capacity in ground (arith, e, cap, room);
    capacity = m ∙ h.capacity;
  }

  same-IsFifo :
      (n : ℕ) (w : World T) (c : Chan T)
      → IsFifo n w
      → c.queue ≡ w.chan.queue
      → c.max_capacity ≡ w.chan.max_capacity
      → IsFifo n (record w { chan = c; accepted = w.accepted ++ [] })
  same-IsFifo n w c h q m = record {
    in_order = ap (◌++◌ w.taken) q ∙ (h.in_order ∙ sym (append-nil w.accepted));
    within = let e = ap length q in let i = h.within in omega (arith, e, i);
    capacity = m ∙ h.capacity;
  }

  try_send-IsFifo : (n : ℕ) (x : T) (w : World T) → IsFifo n w → IsFifo n (apply (op_try_send x) w)
  unfolding apply try_send
  try_send-IsFifo n x w h = elim (Bool-cases (receiver_is_alive w.chan)) [
    | inr dead ↦ rw (dead, try_send) (same-IsFifo n w w.chan h refl refl)
    | inl alive ↦ elim (Bool-cases (leb w.chan.max_capacity (length w.chan.queue))) [
      | inl e ↦ rw (alive, e, try_send) (same-IsFifo n w w.chan h refl refl)
      | inr e ↦ rw (alive, e, try_send) (push-IsFifo n w x _ h refl refl e)
    ]
  ]

  send-IsFifo : (n : ℕ) (x : T) (w : World T) → IsFifo n w → IsFifo n (apply (op_send x) w)
  unfolding apply send_step
  send-IsFifo n x w h = elim (Bool-cases (receiver_is_alive w.chan)) [
    | inr dead ↦ rw (dead, send_step) (same-IsFifo n w w.chan h refl refl)
    | inl alive ↦ elim (Bool-cases (ltb (length w.chan.queue) w.chan.max_capacity)) [
      | inr e ↦ rw (alive, e, send_step) (same-IsFifo n w w.chan h refl refl)
      | inl e ↦ rw (alive, e, send_step) (push-IsFifo n w x _ h refl refl (ground arith))
    ]
  ]

  pop-IsFifo :
      (n : ℕ) (w : World T) (x : T) (rest : List T)
      → IsFifo n w
      → w.chan.queue ≡ x ∷ rest
      → IsFifo n (record w { chan = record w.chan { queue = rest }; taken = w.taken ++ x ∷ [] })
  pop-IsFifo n w x rest h q = record {
    in_order = append_assoc w.taken (x ∷ []) rest ∙ (ap (◌++◌ w.taken) (sym q) ∙ h.in_order);
    within = let e = ap length q in let i = h.within in omega (arith, e, i);
    capacity = h.capacity;
  }

  List-cases : (l : List T) → (l ≡ []) ⊎ ((x : T) × (rest : List T) × (l ≡ x ∷ rest))
  List-cases [] = inl refl
  List-cases (x ∷ rest) = inr (x, rest, refl)

  recv_step-empty :
      (c : Chan T)
      → c.queue ≡ []
      → recv_step c ≡ (if c.sender_count == 0 then some (inl RecvError.disconnected) else none, c)
  unfolding recv_step
  recv_step-empty c e =
      let ended = if c.sender_count == 0 then some (inl RecvError.disconnected) else none in
      ap (λ (l : List T). recv_step (record c { queue = l })) e
      ∙ ap (λ (l : List T). (ended, record c { queue = l })) (sym e)

  ended-IsFifo :
      (n : ℕ) (w : World T) (b : Bool)
      → IsFifo n w
      → IsFifo n (after_recv (if b then some (inl RecvError.disconnected) else none, w.chan) w)
  unfolding after_recv
  ended-IsFifo n w true h = h
  ended-IsFifo n w false h = h

  item-IsFifo :
      (n : ℕ) (w : World T) (x : T) (rest : List T)
      → IsFifo n w
      → w.chan.queue ≡ x ∷ rest
      → IsFifo n (after_recv (recv_step w.chan) w)
  unfolding after_recv recv_step
  item-IsFifo n w x rest h e = rw (e, recv_step, after_recv) (pop-IsFifo n w x rest h e)

  recv-IsFifo : (n : ℕ) (w : World T) → IsFifo n w → IsFifo n (apply op_recv w)
  unfolding apply
  recv-IsFifo n w h = elim (List-cases w.chan.queue) [
    | inr (x, rest, e) ↦ item-IsFifo n w x rest h e
    | inl e ↦ rw (recv_step-empty w.chan e) (ended-IsFifo n w (w.chan.sender_count == 0) h)
  ]

  try_recv-IsFifo : (n : ℕ) (w : World T) → IsFifo n w → IsFifo n (apply op_try_recv w)
  unfolding apply try_recv
  try_recv-IsFifo n w h = elim (List-cases w.chan.queue) [
    | inr (x, rest, e) ↦ rw (e, try_recv) (pop-IsFifo n w x rest h e)
    | inl e ↦ elim (Bool-cases (w.chan.sender_count == 0)) [
      | inl z ↦ rw (e, z, try_recv, append-nil w.taken) h
      | inr z ↦ rw (e, z, try_recv, append-nil w.taken) h
    ]
  ]

  apply-IsFifo : (n : ℕ) (op : Op T) (w : World T) → IsFifo n w → IsFifo n (apply op w)
  unfolding apply clone_sender drop_sender drop_receiver
  apply-IsFifo n (op_try_send x) w h = try_send-IsFifo n x w h
  apply-IsFifo n (op_send x) w h = send-IsFifo n x w h
  apply-IsFifo n op_recv w h = recv-IsFifo n w h
  apply-IsFifo n op_try_recv w h = try_recv-IsFifo n w h
  apply-IsFifo n op_clone w h = record {
    in_order = h.in_order;
    within = h.within;
    capacity = h.capacity;
  }
  apply-IsFifo n op_drop_sender w h = record {
    in_order = h.in_order;
    within = h.within;
    capacity = h.capacity;
  }
  apply-IsFifo n op_drop_receiver w h = record {
    in_order = h.in_order;
    within = h.within;
    capacity = h.capacity;
  }

  run-IsFifo : (n : ℕ) (ops : List (Op T)) (w : World T) → IsFifo n w → IsFifo n (run ops w)
  unfolding run
  run-IsFifo n [] w h = h
  run-IsFifo n (op ∷ ops) w h = run-IsFifo n ops (apply op w) (apply-IsFifo n op w h)

  -- the world of a channel that nobody has used
  abbrev pub start : Chan T → World T
  start c = record { chan = c; accepted = []; taken = [] }

  bounded-new :
      (n : ℕ) (c : Chan T)
      → bounded n ≡ some c
      → c ≡ record { queue = []; max_capacity = n; sender_count = 1; receiver_alive = 1 }
  unfolding bounded
  bounded-new n c made = ground (arith, made)

  -- Whatever senders and receiver do with a channel of `bounded(n)`, in whatever order, the items
  -- received, followed by those still queued, are the items accepted by sends, in their order, and
  -- no more than `n` are queued.
  pub bounded-IsFifo :
      (n : ℕ) (c : Chan T) (ops : List (Op T)) → bounded n ≡ some c → IsFifo n (run ops (start c))
  bounded-IsFifo n c ops made = run-IsFifo n ops (start c) (
      rw (bounded-new n c made) (record { in_order = refl; within = omega arith; capacity = refl }))

  drain-all :
      (queue : List T) (capacity alive : ℕ)
      → drain (suc (length queue)) (record {
        queue = queue;
        max_capacity = capacity;
        sender_count = 0;
        receiver_alive = alive;
      })
        ≡ (queue, true)
  unfolding drain recv_step
  drain-all [] capacity alive = refl
  drain-all (x ∷ queue) capacity alive =
      ap (λ (r : List T × Bool). (x ∷ r.0, r.1)) (drain-all queue capacity alive)

  -- Once no sender is left, a receiver that keeps receiving gets every queued item, in order, and
  -- then the end of the channel, after one turn more than there are items: nothing queued is lost
  -- and nothing waits.
  pub drain-disconnected :
      (c : Chan T) → c.sender_count ≡ 0 → drain (suc (length c.queue)) c ≡ (c.queue, true)
  drain-disconnected c gone =
      ap (λ n. drain (suc (length c.queue)) (record c { sender_count = n })) gone
      ∙ drain-all c.queue c.max_capacity c.receiver_alive
