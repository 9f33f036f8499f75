-- ===== src/Engine/Users/Ends.antt =====
-- The end of a removal: what `finish` and the collection of a generation write.
use mathlib.Core.Path.{subst}
use node_agent_rs.Base.{
  ℕ, ◌≡◌, refl, sym, ap, ◌∙◌, Bool, true, false, Option, none, some, List, ◌==◌, ==_iff,
  if◌then◌else◌, Text, lookup, remove, Result, ok, Option-cases, Bool-cases, some-injective,
  ok-injective, ◌⊎◌, inl, inr, arith,
}
use node_agent_rs.Engine.Shoes.{Shoes}
use node_agent_rs.Engine.Credentials.{EngineError}
use node_agent_rs.Engine.Users.{Registry, DrainingUser, UserInfo, user_info}
use node_agent_rs.Engine.Users.Removal.{
  Joined, joined, join_failed, complete, is_drained, finish, finish_unstored, write_once,
  remove_same, clear_draining_generation, collect, end_remove,
}
use node_agent_rs.Engine.Users.Consistent.{id_of}

-- Stored reports stay.
abbrev pub Keeps : (ℕ → Option UserInfo) → (ℕ → Option UserInfo) → Type 0
Keeps before after = (a : ℕ) (info : UserInfo) → before a ≡ some info → after a ≡ some info

pub write_once-Keeps :
    (address : ℕ) (info : UserInfo) (results : ℕ → Option UserInfo)
    → Keeps results (write_once address info results)
write_once-Keeps address info results a stored h = ground arith

module _ (s : Shoes) (r : Registry s) (g : DrainingUser s.VmessAuthKey) where
  -- A final report: the one that is stored, or that of the record once no connection is left.
  abbrev pub Finished : UserInfo → Registry s → Type 0
  Finished info r' =
      ((r.results g.address ≡ some info) × (r' ≡ r))
      ⊎ ((r.results g.address ≡ none)
          × (is_drained s r g ≡ true)
          × (info ≡ user_info s r g.entry.context)
          × (r' ≡ record r { results = write_once g.address info r.results }))

  complete_unstored :
      r.results g.address ≡ none
      → complete s r g ≡ (
        user_info s r g.entry.context,
        record r { results = write_once g.address (user_info s r g.entry.context) r.results },
      )
  unfolding complete
  complete_unstored h = rw h refl

  finish_unstored_lem :
      (o : Option UserInfo) (info : UserInfo) (r' : Registry s)
      → r.results g.address ≡ o
      → finish_unstored s r g o ≡ some (info, r')
      → Finished info r'
  unfolding finish_unstored
  finish_unstored_lem (some stored) info r' is h =
      let at : (stored, r) ≡ (info, r') = some-injective h in
      let same : stored ≡ info = ap (λ (p : UserInfo × Registry s). p.0) at in
      inl (is ∙ ap some same, sym (ap (λ (p : UserInfo × Registry s). p.1) at))
  finish_unstored_lem none info r' is h = elim (Bool-cases (is_drained s r g)) [
    | inl drained ↦
        let taken : some (complete s r g) ≡ some (info, r') = rw drained at h in
        let at : (
          user_info s r g.entry.context,
          record r { results = write_once g.address (user_info s r g.entry.context) r.results },
        )
            ≡ (info, r') =
          sym (complete_unstored is) ∙ some-injective taken in
        let same : user_info s r g.entry.context ≡ info =
          ap (λ (p : UserInfo × Registry s). p.0) at in
        inr (is, drained, sym same, rw (← same) (sym (ap (λ (p : UserInfo × Registry s). p.1) at)))
    | inr waits ↦ absurd (ground arith)
  ]

  pub finish_lem :
      (info : UserInfo) (r' : Registry s) → finish s r g ≡ some (info, r') → Finished info r'
  unfolding finish
  finish_lem info r' h = finish_unstored_lem (r.results g.address) info r' refl h

  -- The tombstone is left, or it was that of this very generation.
  abbrev pub Cleared :
      List (Text × DrainingUser s.VmessAuthKey) → List (Text × DrainingUser s.VmessAuthKey) → Type 0
  Cleared before after =
      (after ≡ before)
      ⊎ ((current : DrainingUser s.VmessAuthKey) × (lookup (id_of g.entry) before ≡ some current)
          × (current.address ≡ g.address)
          × (after ≡ remove (id_of g.entry) before))

  remove_same_lem :
      (draining : List (Text × DrainingUser s.VmessAuthKey))
      → Cleared draining (remove_same s (lookup (id_of g.entry) draining) g draining)
  unfolding remove_same
  remove_same_lem draining = elim (Option-cases (lookup (id_of g.entry) draining)) [
    | inl nothing ↦ inl (rw nothing refl)
    | inr (current, is) ↦ elim (Bool-cases (current.address == g.address)) [
      | inl same ↦ inr (current, is, (==_iff current.address g.address).0 same, rw (is, same) refl)
      | inr other ↦ inl (rw (is, other) refl)
    ]
  ]

  -- The end of a removal writes reports that were not there, and clears at most its own tombstone.
  pub record Ended (r' : Registry s) : Type 0 where
    pub results : ℕ → Option UserInfo
    pub draining : List (Text × DrainingUser s.VmessAuthKey)
    pub is : r' ≡ record r { results = results; draining = draining }
    pub keeps : Keeps r.results results
    pub cleared : Cleared r.draining draining

  pub finish-Ended : (info : UserInfo) (r' : Registry s) → finish s r g ≡ some (info, r') → Ended r'
  finish-Ended info r' h = elim (finish_lem info r' h) [
    | inl (stored, same) ↦ record {
      results = r.results;
      draining = r.draining;
      is = same;
      keeps = λ a i e. e;
      cleared = inl refl;
    }
    | inr (unstored, drained, taken, written) ↦ record {
      results = write_once g.address info r.results;
      draining = r.draining;
      is = written;
      keeps = write_once-Keeps g.address info r.results;
      cleared = inl refl;
    }
  ]

  clear-Ended :
      (r' : Registry s)
      → Ended r'
      → r'.draining ≡ r.draining
      → Ended (clear_draining_generation s r' g)
  unfolding clear_draining_generation
  clear-Ended r' e same = record {
    results = e.results;
    draining = remove_same s (lookup (id_of g.entry) r.draining) g r.draining;
    is =
        ap (λ (x : Registry s). clear_draining_generation s x g) e.is
        ∙ ap
            (λ (d : List (Text × DrainingUser s.VmessAuthKey)). record r {
              results = e.results;
              draining = remove_same s (lookup (id_of g.entry) d) g d;
            })
            (sym (ap (λ (x : Registry s). x.draining) e.is) ∙ same);
    keeps = e.keeps;
    cleared = remove_same_lem r.draining;
  }

  finish-draining :
      (info : UserInfo) (r' : Registry s)
      → finish s r g ≡ some (info, r')
      → r'.draining ≡ r.draining
  finish-draining info r' h = elim (finish_lem info r' h) [
    | inl (stored, same) ↦ ap (λ (x : Registry s). x.draining) same
    | inr (unstored, drained, taken, written) ↦ ap (λ (x : Registry s). x.draining) written
  ]

  pub finish_stores :
      (info : UserInfo) (r' : Registry s)
      → finish s r g ≡ some (info, r')
      → r'.results g.address ≡ some info
  finish_stores info r' h = elim (finish_lem info r' h) [
    | inl (stored, same) ↦ ap (λ (x : Registry s). x.results g.address) same ∙ stored
    | inr (unstored, drained, taken, written) ↦
        ap (λ (x : Registry s). x.results g.address) written
        ∙ written_at g.address info r.results unstored
  ]
    where
      written_at :
          (address : ℕ) (info : UserInfo) (results : ℕ → Option UserInfo)
          → results address ≡ none
          → write_once address info results address ≡ some info
      written_at address info results h = ground (arith, ==_iff address address)

  collect-Ended :
      (o : Option (UserInfo × Registry s)) (answer : Result EngineError UserInfo) (r' : Registry s)
      → ((info : UserInfo) (r1 : Registry s) → o ≡ some (info, r1) → finish s r g ≡ some (info, r1))
      → collect s o g ≡ some (answer, r')
      → Ended r' × ((info : UserInfo) → answer ≡ ok info → r'.results g.address ≡ some info)
  unfolding collect clear_draining_generation
  collect-Ended none answer r' of h = ground arith
  collect-Ended (some (info, r1)) answer r' of h =
      let finished = of info r1 refl in
      let at = some-injective h in
      let same : clear_draining_generation s r1 g ≡ r' =
        ap (λ (p : Result EngineError UserInfo × Registry s). p.1) at in
      (
        subst Ended same
            (clear-Ended r1 (finish-Ended info r1 finished) (finish-draining info r1 finished)),
        λ info' answered.
            let told : ok info ≡ answer =
              ap (λ (p : Result EngineError UserInfo × Registry s). p.0) at in
            let is : info ≡ info' = ok-injective (told ∙ answered) in
            subst (λ (x : Registry s). x.results g.address ≡ some info') same
              (rw (← is) (finish_stores info r1 finished)),
      )

  complete-Ended : Ended (complete s r g).1
  unfolding complete
  complete-Ended = record {
    results = write_once g.address (user_info s r g.entry.context) r.results;
    draining = r.draining;
    is = refl;
    keeps = write_once-Keeps g.address (user_info s r g.entry.context) r.results;
    cleared = inl refl;
  }

  unchanged-Ended : Ended r
  unchanged-Ended = record {
    results = r.results;
    draining = r.draining;
    is = refl;
    keeps = λ a info h. h;
    cleared = inl refl;
  }

  failed-Ended : (drained : Bool) → Ended (if drained then (complete s r g).1 else r)
  failed-Ended true = complete-Ended
  failed-Ended false = unchanged-Ended

  -- What the end of a removal does, and that the report it answers is stored.
  pub end_remove-Ended :
      (j : Joined) (answer : Result EngineError UserInfo) (r' : Registry s)
      → end_remove s r g j ≡ some (answer, r')
      → Ended r' × ((info : UserInfo) → answer ≡ ok info → r'.results g.address ≡ some info)
  unfolding end_remove
  end_remove-Ended joined answer r' h = collect-Ended (finish s r g) answer r' (λ info r1 e. e) h
  end_remove-Ended (join_failed error) answer r' h =
      let at = some-injective h in
      (
        subst Ended (ap (λ (p : Result EngineError UserInfo × Registry s). p.1) at)
            (failed-Ended (is_drained s r g)),
        λ info answered.
            let told = ap (λ (p : Result EngineError UserInfo × Registry s). p.0) at in
            absurd (ground (arith, told)),
      )
