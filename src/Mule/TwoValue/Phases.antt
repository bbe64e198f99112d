-- ===== src/Mule/TwoValue/Phases.antt =====
-- What `twovalueagreement` promises of its FINISH phase, and that it keeps it: it decides at most
-- once, tells the others what it decided, and its call ends only after that.
use mathlib.Core.List.{append-nil}
use dumbo_ucy.Shared.{
  ℕ, ◌≡◌, refl, ap, ◌∙◌, true, false, List, [], ◌∷◌, ◌++◌, nat_comparable, bytes_comparable,
}
use dumbo_ucy.Shared.Steps.{Then}
use dumbo_ucy.Mule.TwoValue.{est, aux, conf, finish, Out, to_others, decide, State, Result}

-- The abstract machine: nothing decided, a value decided and told, the call free to return.
pub data Phase : Type 0 where
  undecided : Phase
  decided : ℕ → Phase
  completed : ℕ → Phase

-- What a caller and the other parties see of it.
pub data Runs : List Out → Phase → Type 0 where
  starts : Runs [] undecided
  decides : (v : ℕ) → Runs [] undecided → Runs (decide v ∷ to_others (finish v) ∷ []) (decided v)
  completes : (outs : List Out) (v : ℕ) → Runs outs (decided v) → Runs outs (completed v)

-- The decisions and the FINISH messages of what was sent.
abbrev pub visible : List Out → List Out
visible [] = []
visible (decide v ∷ outs) = decide v ∷ visible outs
visible (to_others (finish v) ∷ outs) = to_others (finish v) ∷ visible outs
visible (to_others m ∷ outs) = visible outs

pub visible-append : (outs more : List Out) → visible (outs ++ more) ≡ visible outs ++ visible more
visible-append [] more = refl
visible-append (decide v ∷ outs) more = ap (λ l. decide v ∷ l) (visible-append outs more)
visible-append (to_others (finish v) ∷ outs) more =
    ap (λ l. to_others (finish v) ∷ l) (visible-append outs more)
visible-append (to_others (est r v) ∷ outs) more = visible-append outs more
visible-append (to_others (aux r v) ∷ outs) more = visible-append outs more
visible-append (to_others (conf r v) ∷ outs) more = visible-append outs more

-- The phase of a state.
abbrev pub Matches : State → Phase → Type 0
Matches s undecided = (s.finish_sent ≡ false) × (s.finish_signal ≡ false)
Matches s (decided v) = (s.finish_sent ≡ true) × (s.finish_signal ≡ false)
Matches s (completed v) = (s.finish_sent ≡ true) × (s.finish_signal ≡ true)

pub record Refines (s : State) (outs : List Out) : Type 0 where
  pub phase : Phase
  pub runs : Runs (visible outs) phase
  pub state : Matches s phase

pub keep_phase :
    (s t : State) (a : Phase)
    → t.finish_sent ≡ s.finish_sent
    → t.finish_signal ≡ s.finish_signal
    → Matches s a
    → Matches t a
keep_phase s t undecided sent signal m = (sent ∙ m.0, signal ∙ m.1)
keep_phase s t (decided v) sent signal m = (sent ∙ m.0, signal ∙ m.1)
keep_phase s t (completed v) sent signal m = (sent ∙ m.0, signal ∙ m.1)

-- A step that has nothing to do with FINISH.
pub record Quiet (s : State) (r : Result) : Type 0 where
  pub sent : r.0.finish_sent ≡ s.finish_sent
  pub signal : r.0.finish_signal ≡ s.finish_signal
  pub outs : visible r.1 ≡ []

pub Quiet-Refines :
    (s : State) (outs : List Out) (r : Result) → Quiet s r → Refines s outs → Then Refines outs r
Quiet-Refines s outs r q h = record {
  phase = h.phase;
  runs = rw (visible-append outs r.1, q.outs, append-nil (visible outs)) h.runs;
  state = keep_phase s r.0 h.phase q.sent q.signal h.state;
}

pub Runs-undecided : (outs : List Out) → Runs outs undecided → outs ≡ []
Runs-undecided outs starts = refl

-- Before the decision nothing has been told.
pub undecided_empty :
    (s : State) (outs : List Out) (a : Phase)
    → s.finish_sent ≡ false
    → Runs outs a
    → Matches s a
    → (outs ≡ []) × (s.finish_signal ≡ false)
undecided_empty s outs undecided sent r m = (Runs-undecided outs r, m.1)
undecided_empty s outs (decided v) sent r m = absurd cc
undecided_empty s outs (completed v) sent r m = absurd cc

-- After it the call may return.
pub completes_now :
    (s : State) (outs : List Out) (a : Phase)
    → s.finish_sent ≡ true
    → Runs (visible outs) a
    → Matches s a
    → Refines (record s { finish_signal = true }) outs
completes_now s outs undecided sent r m = absurd cc
completes_now s outs (decided v) sent r m = record {
  phase = completed v;
  runs = completes (visible outs) v r;
  state = (m.0, refl);
}
completes_now s outs (completed v) sent r m = record {
  phase = completed v;
  runs = r;
  state = (m.0, refl);
}

-- Nothing happens.
pub quiet : (s : State) → Quiet s (s, [])
quiet s = record { sent = refl; signal = refl; outs = refl }
