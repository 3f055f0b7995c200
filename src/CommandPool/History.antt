-- ===== src/CommandPool/History.antt =====
-- The command pool over its whole life: tasks get commands and release the ones they have.
use mathlib.Core.List.{Nodup}
use core_mqtt_agent_demos.Prelude.{
  ℕ, suc, ◌≡◌, ◌<◌, refl, subst, sym, Bool, false, Option, none, some, List, [], ◌∷◌, ◌++◌, ltb,
  if◌then◌else◌, length, take, drop, get_or, take-cons-drop, arith, inl, inr, Bool-cases, dec_lt,
  ltb→lt,
}
use core_mqtt_agent_demos.AgentMessage.{QueueApi}
use core_mqtt_agent_demos.CommandPool.{Layout, Pool, initialize_pool, get_command, release_command}
use core_mqtt_agent_demos.CommandPool.Ownership.{
  Owned, length-Owned, initialize_pool-Owned, get_command-Owned, get_command-exhausted,
  release_command-Owned, Nodup-Owned,
}

-- `gets` waits for a time; `releases k` gives back the k-th command in use, if there is one.
pub data Op : Type 0 where
  gets : ℕ → Op
  releases : ℕ → Op

module _ (api : QueueApi) (ms_to_ticks : ℕ → ℕ) (l : Layout) where
  abbrev pub State : Type 0
  State = Pool api ms_to_ticks l × List ℕ

  pub after_get : List ℕ → Option (Pool api ms_to_ticks l × Option ℕ) → Option State
  after_get held none = none
  after_get held (some (p, none)) = some (p, held)
  after_get held (some (p, some command)) = some (p, command ∷ held)

  pub after_release : List ℕ → Option (Pool api ms_to_ticks l × Bool) → Option State
  after_release rest none = none
  after_release rest (some (p, returned)) = some (p, rest)

  -- One operation, on the pool and the commands in use. `none` if an assert fails.
  pub step : State → Op → Option State
  unfolding after_get after_release
  step (p, held) (gets ms) = after_get held (get_command api ms_to_ticks l p ms)
  step (p, held) (releases k) =
      if ltb k (length held)
      then after_release (take k held ++ drop (suc k) held)
          (release_command api ms_to_ticks l p (get_or held k 0))
      else some (p, held)

  pub run : State → List Op → Option State
  run s [] = some s
  run s (op ∷ ops) = elim (step s op) [ none ↦ none | some s' ↦ run s' ops ]

  step-Owned :
      (p : Pool api ms_to_ticks l) (held : List ℕ) (op : Op)
      → 0 < l.size
      → Owned api ms_to_ticks l p held
      → (p' : Pool api ms_to_ticks l) × (held' : List ℕ) × (step (p, held) op ≡ some (p', held'))
        × Owned api ms_to_ticks l p' held'
  unfolding step
  step-Owned p held (gets ms) pos o = elim (dec_lt (length held) l.count) [
    | yes less ↦
        let (p', command, e, o') = get_command-Owned api ms_to_ticks l p held ms o less in
        (p', command ∷ held, rw e, o')
    | no full ↦
        let (p', e, o') =
          get_command-exhausted api ms_to_ticks l p held ms o
            (omega (arith, length-Owned api ms_to_ticks l o)) in
        (p', held, rw e, o')
  ]
  step-Owned p held (releases k) pos o = elim (Bool-cases (ltb k (length held))) [
    | inl inside ↦
        let split = take-cons-drop held k 0 (ltb→lt k (length held) inside) in
        let (p', e, o') =
          release_command-Owned api ms_to_ticks l p (take k held) (drop (suc k) held)
            (get_or held k 0) pos (subst (Owned api ms_to_ticks l p) (sym split) o) in
        (p', take k held ++ drop (suc k) held, rw (inside, e), o')
    | inr outside ↦ (p, held, rw outside, o)
  ]

  run-Owned :
      (p : Pool api ms_to_ticks l) (held : List ℕ) (ops : List Op)
      → 0 < l.size
      → Owned api ms_to_ticks l p held
      → (p' : Pool api ms_to_ticks l) × (held' : List ℕ) × (run (p, held) ops ≡ some (p', held'))
        × Owned api ms_to_ticks l p' held'
  unfolding run
  run-Owned p held [] pos o = (p, held, refl, o)
  run-Owned p held (op ∷ ops) pos o =
      let (p1, held1, e, o1) = step-Owned p held op pos o in
      let (p2, held2, e', o2) = run-Owned p1 held1 ops pos o1 in (p2, held2, rw (e, run) e', o2)

  -- From an uninitialised pool, `Agent_InitializePool` and then any sequence of gets and of releases
  -- of commands in use: no assert fails; the commands in the queue and in use are together the
  -- structures of the array; and no command is in use twice, or in use and in the queue.
  pub run-initialize_pool :
      (p : Pool api ms_to_ticks l) (ops : List Op)
      → 0 < l.size
      → p.initialized ≡ false
      → (ready last : Pool api ms_to_ticks l) × (held : List ℕ) × (o : Owned api ms_to_ticks l last
          held)
        × (initialize_pool api ms_to_ticks l p ≡ some ready)
        × (run (ready, []) ops ≡ some (last, held))
        × Nodup (api.contents o.handle ++ held)
  run-initialize_pool p ops pos fresh =
      let (ready, e, o) = initialize_pool-Owned api ms_to_ticks l p fresh in
      let (last, held, e', o') = run-Owned ready [] ops pos o in
      (ready, last, held, o', e, e', Nodup-Owned api ms_to_ticks l pos o')
