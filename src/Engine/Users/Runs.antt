-- ===== src/Engine/Users/Runs.antt =====
-- Every course of a registry: mutations in any order, and what connections do in between.
use mathlib.Core.Path.{subst}
use node_agent_rs.Base.{
  ℕ, ◌≡◌, refl, sym, ap, ◌∙◌, Bool, true, false, Option, none, some, List, Text, text_eq, lookup,
  lookup-remove, Result, ok, err, Result-cases, Option-cases, Bool-cases, ok-injective, ◌⊎◌, inl,
  inr, arith,
}
use node_agent_rs.Engine.Shoes.{Shoes}
use node_agent_rs.Engine.Credentials.{UserSpec, EngineError, Credentials, Entry, unknown_user}
use node_agent_rs.Engine.Indexes.{refused, Indexes}
use node_agent_rs.Engine.Users.{
  Registry, DrainingUser, UserInfo, user_info, republish_vmess, context_of, new_entry, admit,
  upsert_locked, upsert,
}
use node_agent_rs.Engine.Users.Reports.{set_once, set_each, set_analysis_context}
use node_agent_rs.Engine.Users.Removal.{Joined, attach, begin_remove, finish, end_remove}
use node_agent_rs.Engine.Users.Consistent.{id_of}
use node_agent_rs.Engine.Users.Valid.{IsValid}
use node_agent_rs.Engine.Users.Upserted.{upserted, upsert_admitted}
use node_agent_rs.Engine.Users.Ends.{
  Ended, Keeps, Cleared, finish_lem, write_once-Keeps, end_remove-Ended,
}
use node_agent_rs.Engine.Users.Removes.{generation_of, revoked, begin_remove_live}

pub same_state :
    {E X S : Type 0} (m : Result E (X × S)) {x y : X} {a b : S}
    → m ≡ ok (x, a)
    → m ≡ ok (y, b)
    → a ≡ b
same_state {E} {X} {S} m h k = ap (λ (p : X × S). p.1) (ok-injective (sym h ∙ k))

module _ (s : Shoes) where
  -- One call, the end of a removal, or what connections, sweeps and kicks do to the records.
  pub data Step : Registry s → Registry s → Type 0 where
    upserts :
        (r r' : Registry s) (spec : UserSpec) (info : UserInfo)
        → upsert s r spec ≡ ok (info, r')
        → Step r r'
    begins :
        (r r' : Registry s) (tag id : Text) (g : DrainingUser s.VmessAuthKey) (new : Bool)
        → begin_remove s r tag id ≡ ok ((g, new), r')
        → Step r r'
    finishes :
        (r r' : Registry s) (g : DrainingUser s.VmessAuthKey) (info : UserInfo)
        → finish s r g ≡ some (info, r')
        → Step r r'
    ends :
        (r r' : Registry s) (g : DrainingUser s.VmessAuthKey) (j : Joined)
        (answer : Result EngineError UserInfo)
        → end_remove s r g j ≡ some (answer, r')
        → Step r r'
    analyses : (r : Registry s) (analysis : s.Analysis) → Step r (set_analysis_context s r analysis)
    meters : (r : Registry s) (heap : ℕ → s.Cell) → Step r (record r { heap = heap })

  pub data Reach (first : Registry s) : Registry s → Type 0 where
    here : Reach first first
    next : {r r' : Registry s} → Reach first r → Step r r' → Reach first r'

  -- What `upsert` answers: the refusal of its checks, or what `upsert_locked` leaves.
  pub upsert_cases :
      (r : Registry s)
      → IsValid s r
      → (spec : UserSpec)
      → ((error : EngineError) × (admit s r spec ≡ err error)
          × (upsert s r spec ≡ err (refused error)))
        ⊎ ((id : Text) × (c : Credentials) × (filed : Indexes s.VmessAuthKey) × (admit s r spec
              ≡ ok (id, c))
            × (upsert s r spec
                ≡ ok (
                  user_info s
                      (republish_vmess s (upserted s r id spec c filed))
                      (context_of s r id (lookup id r.users)),
                  republish_vmess s (upserted s r id spec c filed),
                ))
            × IsValid s (republish_vmess s (upserted s r id spec c filed)))
  unfolding upsert upsert_locked new_entry
  upsert_cases r valid spec = elim (Result-cases (admit s r spec)) [
    | inl ((id, c), admitted) ↦
        let (filed, locked, valid') = upsert_admitted s r valid id spec c admitted in
        inr (id, c, filed, admitted, rw locked refl, valid')
    | inr (error, not_admitted) ↦ inl (error, not_admitted, rw not_admitted refl)
  ]

  -- What the part of `remove` under the lock answers.
  pub begin_remove_cases :
      (r : Registry s)
      → IsValid s r
      → (tag id : Text)
      → ((e : Entry s.VmessAuthKey) × (dropped : Indexes s.VmessAuthKey) × (lookup id r.users
            ≡ some e)
          × (begin_remove s r tag id
              ≡ ok ((generation_of s r e, true), republish_vmess s (revoked s r id e dropped)))
          × IsValid s (republish_vmess s (revoked s r id e dropped)))
        ⊎ ((g : DrainingUser s.VmessAuthKey) × (lookup id r.draining ≡ some g)
            × (begin_remove s r tag id ≡ ok ((g, false), r)))
        ⊎ ((lookup id r.users ≡ none)
            × (lookup id r.draining ≡ none)
            × (begin_remove s r tag id ≡ err (refused (unknown_user tag id))))
  unfolding begin_remove attach
  begin_remove_cases r valid tag id = elim (Option-cases (lookup id r.users)) [
    | inr (e, was) ↦
        let (dropped, begun, valid') = begin_remove_live s r valid tag id e was in
        inl (e, dropped, was, begun, valid')
    | inl absent ↦ elim (Option-cases (lookup id r.draining)) [
      | inr (g, drains) ↦
          inr (inl (g, drains, rw (begin_remove, absent) (rw (attach, drains) refl)))
      | inl unknown ↦
          inr (inr (absent, unknown, rw (begin_remove, absent) (rw (attach, unknown) refl)))
    ]
  ]

  Cleared-lookup :
      (g : DrainingUser s.VmessAuthKey) (r : Registry s)
      (after : List (Text × DrainingUser s.VmessAuthKey)) (i : Text)
      → Cleared s r g r.draining after
      → (lookup i after ≡ lookup i r.draining) ⊎ (lookup i after ≡ none)
  Cleared-lookup g r after i (inl same) = inl (rw same refl)
  Cleared-lookup g r after i (inr (current, is, own, gone)) =
      elim (Bool-cases (text_eq (id_of g.entry) i)) [
        | inl own_id ↦ inr (rw gone (rw (lookup-remove i (id_of g.entry) r.draining, own_id) refl))
        | inr there ↦ inl (rw gone (rw (lookup-remove i (id_of g.entry) r.draining, there) refl))
      ]

  -- Fewer tombstones, and other reports, leave a registry valid.
  shrink-IsValid :
      (r : Registry s) (results : ℕ → Option UserInfo)
      (after : List (Text × DrainingUser s.VmessAuthKey))
      → IsValid s r
      → ((i : Text) → (lookup i after ≡ lookup i r.draining) ⊎ (lookup i after ≡ none))
      → IsValid s (record r { results = results; draining = after })
  shrink-IsValid r results after valid fewer =
      let h = valid.separate in
      record {
        agree = valid.agree;
        snapshot = valid.snapshot;
        separate = record {
          apart = λ i e is. ground (arith, fewer i, h.apart i e);
          drains_named = λ i g is. ground (arith, fewer i, h.drains_named i g);
          cells = h.cells;
          drained_cells = λ i g is. ground (arith, fewer i, h.drained_cells i g);
          own_cells = h.own_cells;
          apart_cells = λ i j e g is also. h.apart_cells i j e g is (ground (arith, fewer j));
          generations = λ i g is. ground (arith, fewer i, h.generations i g);
        };
      }

  Ended-IsValid :
      (r r' : Registry s) (g : DrainingUser s.VmessAuthKey)
      → IsValid s r
      → Ended s r g r'
      → IsValid s r'
  Ended-IsValid r r' g valid e =
      rw e.is (
        shrink-IsValid r e.results e.draining valid
          (λ i. Cleared-lookup g r e.draining i e.cleared))

  -- The generation whose removal a step ends.
  abbrev pub ends_of : {r r' : Registry s} → Step r r' → Option (DrainingUser s.VmessAuthKey)
  ends_of (upserts r r' spec info h) = none
  ends_of (begins r r' tag id g new h) = none
  ends_of (finishes r r' g info h) = none
  ends_of (ends r r' g j answer h) = some g
  ends_of (analyses r analysis) = none
  ends_of (meters r heap) = none

  -- To show what holds after a step, show it after each thing that a step may do.
  pub Step-cases :
      (P : Registry s → Type 0) {r r' : Registry s} (st : Step r r')
      → IsValid s r
      → ((id : Text) (spec : UserSpec) (c : Credentials) (filed : Indexes s.VmessAuthKey)
          → admit s r spec ≡ ok (id, c)
          → IsValid s (republish_vmess s (upserted s r id spec c filed))
          → P (republish_vmess s (upserted s r id spec c filed)))
      → ((id : Text) (e : Entry s.VmessAuthKey) (dropped : Indexes s.VmessAuthKey)
          → lookup id r.users ≡ some e
          → IsValid s (republish_vmess s (revoked s r id e dropped))
          → P (republish_vmess s (revoked s r id e dropped)))
      → P r
      → ((results : ℕ → Option UserInfo)
          → Keeps r.results results
          → P (record r { results = results }))
      → ((g : DrainingUser s.VmessAuthKey) → ends_of st ≡ some g → Ended s r g r' → P r')
      → ((analysis : Option s.Analysis) (heap : ℕ → s.Cell)
          → P (record r { analysis = analysis; heap = heap }))
      → P r'
  unfolding set_analysis_context
  Step-cases P (upserts r r' spec info h) valid added removed attached finished ended metered =
      elim (upsert_cases r valid spec) [
        | inl (error, refusal, refused_it) ↦ absurd (ground arith)
        | inr (id, c, filed, admitted, done, valid') ↦
            subst P (same_state (upsert s r spec) done h) (added id spec c filed admitted valid')
      ]
  Step-cases P (begins r r' tag id g new h) valid added removed attached finished ended metered =
      elim (begin_remove_cases r valid tag id) [
        | inl (e, dropped, was, begun, valid') ↦
            subst P (same_state (begin_remove s r tag id) begun h) (removed id e dropped was valid')
        | inr (inl (old, drains, begun)) ↦
            subst P (same_state (begin_remove s r tag id) begun h) attached
        | inr (inr (absent, unknown, refused_it)) ↦ absurd (ground arith)
      ]
  Step-cases P (finishes r r' g info h) valid added removed attached finished ended metered =
      elim (finish_lem s r g info r' h) [
        | inl (stored, same) ↦ rw same attached
        | inr (unstored, drained, taken, written) ↦
            rw written (finished _ (write_once-Keeps g.address info r.results))
      ]
  Step-cases P (ends r r' g j answer h) valid added removed attached finished ended metered =
      ended g refl (end_remove-Ended s r g j answer r' h).0
  Step-cases P (analyses r analysis) valid added removed attached finished ended metered =
      metered (set_once s r.analysis analysis) (set_each s analysis r.heap r.users)
  Step-cases P (meters r heap) valid added removed attached finished ended metered =
      metered r.analysis heap

  -- A step leaves a valid registry valid.
  pub Step-IsValid : {r r' : Registry s} → Step r r' → IsValid s r → IsValid s r'
  Step-IsValid {r} {r'} st valid =
      Step-cases (IsValid s) st valid (λ id spec c filed admitted valid'. valid')
        (λ id e dropped was valid'. valid') valid
        (λ results keeps. shrink-IsValid r results r.draining valid (λ i. inl refl))
        (λ g own e. Ended-IsValid r r' g valid e)
        (λ analysis heap. record {
          agree = valid.agree;
          snapshot = valid.snapshot;
          separate = valid.separate;
        })

  pub Reach-IsValid : {first r : Registry s} → IsValid s first → Reach first r → IsValid s r
  Reach-IsValid valid here = valid
  Reach-IsValid valid (next before step) = Step-IsValid step (Reach-IsValid valid before)
