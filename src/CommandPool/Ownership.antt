-- ===== src/CommandPool/Ownership.antt =====
-- Who has each command structure: the queue, or the tasks that it was handed to.
use mathlib.Core.List.{Perm, Nodup, perm_middle}
use mathlib.Core.List.Perm
use mathlib.Core.List.{Mem, mem-cons, mem-append, mem-cons_self, Nodup-nil, Nodup-cons, not-mem-nil}
use mathlib.Core.Logic.Or
use native.Mathlib.Bridge.{le_prop}
use core_mqtt_agent_demos.Prelude.{
  le→leb, lt→ltb, length-zero, ◌⊎◌, replicate, ℕ, zero, suc, ◌+◌, ◌*◌, ◌≡◌, ◌≤◌, ◌<◌, refl, sym, ap,
  ◌∙◌, true, false, none, some, List, [], ◌∷◌, ◌++◌, length, length-append, append-nil,
  append_assoc, arith, inl, inr,
}
use core_mqtt_agent_demos.Prelude.Order.{length-perm}
use core_mqtt_agent_demos.AgentMessage.{QueueApi, message_send, message_receive}
use core_mqtt_agent_demos.CommandPool.{
  Layout, command_address, Pool, populate, initialize_pool, get_command, release_command,
}

-- The addresses of the structures from index `i` on, `rounds` of them.
unfoldable pub addresses : Layout → ℕ → ℕ → List ℕ
addresses l i zero = []
addresses l i (suc rounds) = command_address l i ∷ addresses l (i + 1) rounds

pub length-addresses : (l : Layout) (i rounds : ℕ) → length (addresses l i rounds) ≡ rounds
unfolding addresses
length-addresses l i zero = refl
length-addresses l i (suc rounds) = ap suc (length-addresses l (i + 1) rounds)

module _ (api : QueueApi) (ms_to_ticks : ℕ → ℕ) (l : Layout) where
  open api use {Handle, contents, capacity, create_static, send_room, receive_front, receive_empty}

  -- The initialised pool's queue and the commands in use are the structures of the array, each
  -- in one of the two.
  pub record Owned (p : Pool api ms_to_ticks l) (held : List ℕ) : Type 0 where
    pub handle : Handle
    pub ready : p.initialized ≡ true
    pub created : p.queue ≡ some handle
    pub sized : capacity handle ≡ l.count
    pub shares : Perm (contents handle ++ held) (addresses l 0 l.count)

  -- Populating a queue with room for all appends the addresses in order.
  populate-addresses :
      (rounds i : ℕ) (h : Handle)
      → length (contents h) + rounds ≤ capacity h
      → (h' : Handle) × (populate api ms_to_ticks l (some h) i rounds ≡ some (some h'))
        × (contents h' ≡ contents h ++ addresses l i rounds)
        × (capacity h' ≡ capacity h)
  unfolding populate addresses message_send
  populate-addresses zero i h room = (h, refl, sym (append-nil (contents h)), refl)
  populate-addresses (suc rounds) i h room =
      let (sent, c, k) = send_room h (command_address l i) (ms_to_ticks 0) (omega arith) in
      let next = (api.send_to_back h (command_address l i) (ms_to_ticks 0)).0 in
      let (h', e, c', k') =
        populate-addresses rounds (i + 1) next
          (omega (arith, ap length c, length-append {0} (contents h) (command_address l i ∷ []))) in
      (
        h',
        rw sent e,
        c'
            ∙ rw c
                (append_assoc (contents h) (command_address l i ∷ []) (addresses l (i + 1) rounds)),
        k' ∙ k,
      )

  -- `Agent_InitializePool` on an uninitialised pool passes its asserts, and every structure is in
  -- the queue, in the order of the array.
  pub initialize_pool-Owned :
      (p : Pool api ms_to_ticks l)
      → p.initialized ≡ false
      → (p' : Pool api ms_to_ticks l) × (initialize_pool api ms_to_ticks l p ≡ some p')
        × Owned p' []
  unfolding initialize_pool
  initialize_pool-Owned p fresh =
      let (h, created, none_in, sized) = api.create_static_lem l.count in
      let (h', e, c, k) = populate-addresses l.count 0 h (omega (arith, ap length none_in)) in
      (
        record { storage = replicate (l.count * l.size) 0; queue = some h'; initialized = true },
        rw (fresh, created, e),
        record {
          handle = h';
          ready = refl;
          created = refl;
          sized = k ∙ sized;
          shares = rw (append-nil, c, none_in) (Perm.refl _);
        },
      )

  -- The structures in the queue and those in use are `count` together.
  pub length-Owned :
      {p : Pool api ms_to_ticks l} {held : List ℕ} (o : Owned p held)
      → length (contents o.handle) + length held ≡ l.count
  length-Owned {p} {held} o =
      sym (length-append (contents o.handle) held)
      ∙ length-perm o.shares
      ∙ length-addresses l 0 l.count

  get_front :
      (p : Pool api ms_to_ticks l) (held : List ℕ) (block_time_ms : ℕ) (o : Owned p held)
      → (command : ℕ) (rest : List ℕ) → contents o.handle ≡ command ∷ rest
      → (p' : Pool api ms_to_ticks l) × (get_command api ms_to_ticks l p block_time_ms
          ≡ some (p', some command))
        × Owned p' (command ∷ held)
  unfolding get_command message_receive
  get_front p held block_time_ms o command rest front =
      let (got, c, k) = receive_front o.handle (ms_to_ticks block_time_ms) command rest front in
      let next = (api.receive o.handle (ms_to_ticks block_time_ms)).0 in
      (
        record p { queue = some next },
        rw (o.created, o.ready, got),
        record {
          handle = next;
          ready = o.ready;
          created = refl;
          sized = k ∙ o.sized;
          shares = rw c (Perm.trans (perm_middle rest held) (rw front at o.shares));
        },
      )

  -- While fewer than all structures are in use, `Agent_GetCommand` hands one out, whatever the time
  -- to wait, and that one is now in use besides those before.
  pub get_command-Owned :
      (p : Pool api ms_to_ticks l) (held : List ℕ) (block_time_ms : ℕ)
      → Owned p held
      → length held < l.count
      → (p' : Pool api ms_to_ticks l) × (command : ℕ) × (get_command api ms_to_ticks l p
            block_time_ms
          ≡ some (p', some command))
        × Owned p' (command ∷ held)
  get_command-Owned p held block_time_ms o less = by_contents (contents o.handle) refl
    where
      by_contents :
          (xs : List ℕ)
          → contents o.handle ≡ xs
          → (p' : Pool api ms_to_ticks l) × (command : ℕ) × (get_command api ms_to_ticks l p
                block_time_ms
              ≡ some (p', some command))
            × Owned p' (command ∷ held)
      by_contents [] e = absurd (omega (arith, length-Owned o, ap length e))
      by_contents (command ∷ rest) e =
          let (p', got, o') = get_front p held block_time_ms o command rest e in
          (p', command, got, o')

  -- With all structures in use it returns `NULL`, and all stay in use.
  pub get_command-exhausted :
      (p : Pool api ms_to_ticks l) (held : List ℕ) (block_time_ms : ℕ)
      → Owned p held
      → length held ≡ l.count
      → (p' : Pool api ms_to_ticks l) × (get_command api ms_to_ticks l p block_time_ms
          ≡ some (p', none))
        × Owned p' held
  unfolding get_command message_receive
  get_command-exhausted p held block_time_ms o all =
      let drained = length-zero (contents o.handle) (omega (arith, length-Owned o)) in
      let (got, c, k) = receive_empty o.handle (ms_to_ticks block_time_ms) drained in
      let next = (api.receive o.handle (ms_to_ticks block_time_ms)).0 in
      (
        record p { queue = some next },
        rw (o.created, o.ready, got),
        record {
          handle = next;
          ready = o.ready;
          created = refl;
          sized = k ∙ o.sized;
          shares = rw c (rw drained at o.shares);
        },
      )

  in_range :
      (command i rounds : ℕ)
      → 0 < l.size
      → Mem command (addresses l i rounds)
      → (l.base + i * l.size ≤ command) × (command < l.base + (i + rounds) * l.size)
  unfolding addresses
  in_range command i zero pos m = absurd (not-mem-nil m)
  in_range command i (suc rounds) pos m =
      Or.elim (hlevel le_prop) (mem-cons.0 m) (λ e. rw e (grind arith, grind arith))
        (λ m'. let (a, b) = in_range command (i + 1) rounds pos m' in (grind arith, grind arith))

  -- Releasing a structure in use passes the asserts and returns it to the queue.
  pub release_command-Owned :
      (p : Pool api ms_to_ticks l) (before after : List ℕ) (command : ℕ)
      → 0 < l.size
      → Owned p (before ++ (command ∷ after))
      → (p' : Pool api ms_to_ticks l) × (release_command api ms_to_ticks l p command
          ≡ some (p', true))
        × Owned p' (before ++ after)
  unfolding release_command message_send
  release_command-Owned p before after command pos o =
      let (low, high) = in_range command 0 l.count pos (
        Perm.subset o.shares command
          (mem-append.1 (Or.inr (mem-append.1 (Or.inr mem-cons_self))))) in
      let inside : command < l.base + l.count * l.size = omega arith in
      let room = length-append before (command ∷ after) in
      let (sent, c, k) =
        send_room o.handle command (ms_to_ticks 0) (omega (arith, length-Owned o, o.sized, room)) in
      let next = (api.send_to_back o.handle command (ms_to_ticks 0)).0 in
      (
        record p { queue = some next },
        rw (o.created, o.ready, le→leb l.base command (omega arith), lt→ltb _ _ inside, sent),
        record {
          handle = next;
          ready = o.ready;
          created = refl;
          sized = k ∙ o.sized;
          shares =
              rw (c, append_assoc)
                (Perm.trans
                  (Perm.append_left (contents o.handle) (Perm.symm (perm_middle before after)))
                  o.shares);
        },
      )

  -- An address outside the array is not returned to the queue, and `false` says so.
  pub release_command-foreign :
      (p : Pool api ms_to_ticks l) (command : ℕ)
      → p.initialized ≡ true
      → (command < l.base) ⊎ (l.base + l.count * l.size ≤ command)
      → release_command api ms_to_ticks l p command ≡ some (p, false)
  unfolding release_command
  release_command-foreign p command ready (inl low) = ground arith
  release_command-foreign p command ready (inr high) = ground arith

  -- The structures of the array lie at different addresses.
  Nodup-addresses : (i rounds : ℕ) → 0 < l.size → Nodup (addresses l i rounds)
  unfolding addresses
  Nodup-addresses i zero pos = Nodup-nil
  Nodup-addresses i (suc rounds) pos = Nodup-cons.1 (
    (λ m.
        let (low, high) = in_range (command_address l i) (i + 1) rounds pos m in
        absurd (grind arith)),
    Nodup-addresses (i + 1) rounds pos,
  )

  -- So no structure is in use twice, nor in use and in the queue.
  pub Nodup-Owned :
      {p : Pool api ms_to_ticks l} {held : List ℕ}
      → 0 < l.size
      → (o : Owned p held) → Nodup (contents o.handle ++ held)
  Nodup-Owned pos o = Perm.nodup (Perm.symm o.shares) (Nodup-addresses 0 l.count pos)
