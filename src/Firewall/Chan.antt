-- ===== src/Firewall/Chan.antt =====
-- components/firewall-perimeter/src/chan.rs: the bounded channel. Every operation holds the lock of
-- the queue from its first test to its last effect, so an operation is one step; a blocking call is
-- a sequence of steps, one for each time that it holds the lock, of which those that wait change
-- nothing. The results of `send` and of `try_send` are one type; `usize` has 64 bits.
pub mod Fifo
use active_spectral_defense.Base.{
  ℕ, ◌+◌, ◌-◌, ◌%◌, ◌^◌, Bool, true, false, Option, none, some, List, [], ◌∷◌, ◌++◌, length, leb,
  ltb, ◌==◌, if◌then◌else◌, zero, suc, ◌⊎◌, inl, inr,
}

pub data TrySend {ℓ} (T : Type ℓ) : Type ℓ where
  sent : TrySend T
  disconnected full : T → TrySend T

pub data RecvError : Type 0 where
  disconnected : RecvError

pub data TryRecv {ℓ} (T : Type ℓ) : Type ℓ where
  received : T → TryRecv T
  empty disconnected : TryRecv T

-- `Shared`
pub record Chan {ℓ} (T : Type ℓ) : Type ℓ where
  pub queue : List T
  pub max_capacity : ℕ
  pub sender_count : ℕ
  pub receiver_alive : ℕ

module _ {ℓ} {T : Type ℓ} where
  -- `none` where the assertion on the capacity fails
  unfoldable pub bounded : ℕ → Option (Chan T)
  bounded max_elements =
      if ltb 0 max_elements
      then some
          (record { queue = []; max_capacity = max_elements; sender_count = 1; receiver_alive = 1 })
      else none

  unfoldable pub receiver_is_alive : Chan T → Bool
  receiver_is_alive c = c.receiver_alive == 1

  unfoldable pub try_send : T → Chan T → TrySend T × Chan T
  unfolding receiver_is_alive
  try_send item c =
      if receiver_is_alive c
      then (if leb c.max_capacity (length c.queue)
          then (full item, c)
          else (sent, record c { queue = c.queue ++ item ∷ [] }))
      else (TrySend.disconnected item, c)

  -- one turn of the loop of `send`: `none` where it waits
  unfoldable pub send_step : T → Chan T → Option (TrySend T) × Chan T
  unfolding receiver_is_alive
  send_step item c =
      if receiver_is_alive c
      then (if ltb (length c.queue) c.max_capacity
          then (some sent, record c { queue = c.queue ++ item ∷ [] })
          else (none, c))
      else (some (TrySend.disconnected item), c)

  -- one turn of the loop of `recv`: `none` where it waits
  unfoldable pub recv_step : Chan T → Option (RecvError ⊎ T) × Chan T
  recv_step c = elim c.queue [
    | item ∷ rest ↦ (some (inr item), record c { queue = rest })
    | [] ↦ (if c.sender_count == 0 then some (inl RecvError.disconnected) else none, c)
  ]

  unfoldable pub try_recv : Chan T → TryRecv T × Chan T
  try_recv c = elim c.queue [
    | item ∷ rest ↦ (received item, record c { queue = rest })
    | [] ↦ (if c.sender_count == 0 then TryRecv.disconnected else empty, c)
  ]

  -- `Sender::clone`
  unfoldable pub clone_sender : Chan T → Chan T
  clone_sender c = record c { sender_count = (c.sender_count + 1) % 2 ^ 64 }

  -- `Sender::drop`
  unfoldable pub drop_sender : Chan T → Chan T
  drop_sender c = record c { sender_count = (c.sender_count + (2 ^ 64 - 1)) % 2 ^ 64 }

  -- `Receiver::drop`
  unfoldable pub drop_receiver : Chan T → Chan T
  drop_receiver c = record c { receiver_alive = 0 }

  -- the receiver as an iterator, for at most the given number of turns: what it yields, and whether
  -- it ended; it does not end where `recv` waits
  unfoldable pub drain : ℕ → Chan T → List T × Bool
  drain zero c = ([], false)
  drain (suc n) c =
      let (r, c') = recv_step c in
      let (rest, ended) = drain n c' in
      elim r [
        | none ↦ ([], false)
        | some (inl e) ↦ ([], true)
        | some (inr item) ↦ (item ∷ rest, ended)
      ]
