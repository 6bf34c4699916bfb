-- ===== src/Channel/Counters.antt =====
-- Which counters a client uses over its life.
use unseen_fyi.Prelude.{
  ℕ, ◌+◌, ◌≤◌, ◌<◌, ◌≡◌, ◌⊎◌, inl, inr, Bool, Option, none, some, List, [], ◌∷◌, ◌++◌, arith,
}
use unseen_fyi.Channel.Send.{
  SendCounters, present, reserve, commit, commit_reserved, allocate_counter,
}

-- A tab allocates a counter for a frame of some kind, or it is reloaded and resumes from what is
-- stored: session.ts sets both counters to the stored value.
pub data Life : Type 0 where
  allocated : ℕ → Life
  reloaded : Life

unfoldable pub resume_counters : SendCounters → SendCounters
resume_counters state = record {
  counter_committed = state.stored;
  counter_reserved = state.stored;
  stored = state.stored;
}

used : Option ℕ → List ℕ
used none = []
used (some counter) = counter ∷ []

-- The counters after a life, and those that were given out, the first one first.
unfoldable pub live : (ℕ → Bool) → SendCounters → List Life → SendCounters × List ℕ
unfolding used resume_counters
live returns state [] = (state, [])
live returns state (allocated kind ∷ lives) =
    let (state', counter) = allocate_counter (present returns) state kind in
    let (last, counters) = live returns state' lives in (last, used counter ++ counters)
live returns state (reloaded ∷ lives) = live returns (resume_counters state) lives

-- What is committed is reserved, and what is reserved is stored.
abbrev pub Stored : SendCounters → Type 0
Stored state =
    (state.counter_committed ≤ state.counter_reserved) × (state.counter_reserved ≤ state.stored)

-- Each number is larger than those before it, and the first is larger than `from`.
abbrev pub Increases : ℕ → List ℕ → Type 0
Increases from [] = Unit {0}
Increases from (n ∷ ns) = (from < n) × Increases n ns

pub Increases-from : (a b : ℕ) (ns : List ℕ) → a ≤ b → Increases b ns → Increases a ns
Increases-from a b [] h k = tt
Increases-from a b (n ∷ ns) h k = (omega arith, k.1)

-- An allocation keeps the order of the counters, and gives the next counter or leaves the old one.
allocate_step :
    (returns : ℕ → Bool) (state : SendCounters) (kind : ℕ)
    → Stored state
    → let (state', counter) = allocate_counter (present returns) state kind in
      Stored state'
      × (((counter ≡ none) × (state'.counter_committed ≡ state.counter_committed))
          ⊎ ((counter ≡ some (state.counter_committed + 1))
              × (state'.counter_committed ≡ state.counter_committed + 1)))
unfolding allocate_counter reserve commit commit_reserved
allocate_step returns state kind h = ground arith

add_used :
    (from committed : ℕ) (counter : Option ℕ) (ns : List ℕ)
    → ((counter ≡ none) × (committed ≡ from))
      ⊎ ((counter ≡ some (from + 1)) × (committed ≡ from + 1))
    → Increases committed ns
    → Increases from (used counter ++ ns)
unfolding used
add_used from committed none ns (inl (e, g)) k = Increases-from from committed ns (omega arith) k
add_used from committed none ns (inr (e, g)) k = absurd (cc e)
add_used from committed (some c) ns (inl (e, g)) k = absurd (cc e)
add_used from committed (some c) ns (inr (e, g)) k =
    let at : c ≡ from + 1 = cc e in
    (omega (arith, at), Increases-from c committed ns (omega (arith, at, g)) k)

-- A life of allocations and reloads, in any order and of any kinds, with a store that may refuse
-- (throw) at any counter: from counters of which what is committed is reserved and what is reserved
-- is stored, all counters that are ever given out are strictly increasing and above those that were
-- committed before. So no counter is given out twice, reloads included.
pub live-Increases :
    (returns : ℕ → Bool) (state : SendCounters) (lives : List Life)
    → Stored state
    → Increases state.counter_committed (live returns state lives).1
unfolding live
live-Increases returns state [] h = tt
live-Increases returns state (allocated kind ∷ lives) h =
    let (kept, next) = allocate_step returns state kind h in
    let (state', counter) = allocate_counter (present returns) state kind in
    add_used state.counter_committed state'.counter_committed counter (live returns state' lives).1
      next (live-Increases returns state' lives kept)
live-Increases returns state (reloaded ∷ lives) h =
    Increases-from state.counter_committed state.stored
      (live returns (resume_counters state) lives).1 (omega arith)
      (live-Increases returns (resume_counters state) lives
        (unfold resume_counters in (omega arith, omega arith)))
