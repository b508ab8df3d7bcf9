-- ===== src/Script/Sequence.antt =====
-- cmd/mh2c/script.go: the run of a script against the plain sequence of its iterations.
use mh2c_go.Base.{
  ℕ, zero, suc, ◌≡◌, refl, sym, ap, ◌∙◌, Bool, true, false, ◌||◌, List, [], ◌∷◌, ◌++◌, Result, ok,
  err, panic, diverge, in_action,
}
use mh2c_go.Base.State.{M, ◌>>=◌, continue, continue_assoc, lift, pure, fail}
use mh2c_go.Hpack.{Library}
use mh2c_go.Client.Conn.{Conn}
use mh2c_go.Session.{Output, Session}
use mh2c_go.Script.Values.{ScriptTable}
use mh2c_go.Script.Text.{Unicode}
use mh2c_go.Script.Repeat.{ActionRepeat, parse_action_repeat}
use mh2c_go.Script.Run.{run_iteration, run_iterations, run_actions, execute_script, wrap_error}

or_assoc : (a b c : Bool) → (a || b) || c ≡ a || (b || c)
or_assoc true b c = refl
or_assoc false b c = refl

or_false : (a : Bool) → a || false ≡ a
or_false true = refl
or_false false = refl

module _ {S : Type 0} where
  -- A flag that joins the one that a step gives.
  abbrev joining : Bool → Bool → M S Bool
  joining a b = pure (a || b)

  -- Steps one after the other, up to the first error: what they give is whether one of them gave true.
  abbrev pub run_all : List (M S Bool) → M S Bool
  run_all [] = pure false
  run_all (m ∷ ms) = m >>= λ got. run_all ms >>= λ later. pure (got || later)

  joining-joining :
      (a b : Bool) (r : S × Result Bool)
      → continue (continue r (joining b)) (joining a) ≡ continue r (joining (a || b))
  joining-joining a b r =
      continue_assoc r (joining b) (joining a)
      ∙ (λ i. continue r (λ c s. (s, ok (sym (or_assoc a b c) i))))

  run_all-append :
      (ms ns : List (M S Bool)) (s : S)
      → run_all (ms ++ ns) s
        ≡ continue (run_all ms s) (λ got s₁. continue (run_all ns s₁) (joining got))
  run_all-append [] ns s = joining_false (run_all ns s)
    where
      joining_false : (r : S × Result Bool) → r ≡ continue r (joining false)
      joining_false (s, ok b) = refl
      joining_false (s, err why) = refl
      joining_false (s, panic) = refl
      joining_false (s, diverge) = refl
  run_all-append (m ∷ ms) ns s =
      (λ i. continue (m s) (λ got s₁. continue (run_all-append ms ns s₁ i) (joining got)))
      ∙ ((λ i. continue (m s) (λ got s₁.
            continue_assoc (run_all ms s₁) (λ b s₂. continue (run_all ns s₂) (joining b))
              (joining got) i))
          ∙ ((λ i. continue (m s) (λ got s₁.
                continue (run_all ms s₁) (λ b s₂. joining-joining got b (run_all ns s₂) i)))
              ∙ ((λ i. continue (m s) (λ got s₁.
                    sym
                      (continue_assoc (run_all ms s₁) (joining got)
                        (λ b s₂. continue (run_all ns s₂) (joining b)))
                      i))
                  ∙ sym (
                      continue_assoc (m s) (λ got s₁. continue (run_all ms s₁) (joining got))
                        (λ b s₂. continue (run_all ns s₂) (joining b))))))

module _ (U : Unicode) {X : Library} {C : Conn} {O : Output} (fuel rounds : ℕ) where
  -- The iterations of an action, of which `left` are left; of an action whose repetition is refused,
  -- the error alone; and those of all actions.
  abbrev pub iteration_steps :
      ℕ → ScriptTable → ActionRepeat → ℕ → ℕ → List (M (Session X C O) Bool)
  iteration_steps index action repeat zero iteration = []
  iteration_steps index action repeat (suc left) iteration =
      run_iteration U fuel rounds index action repeat iteration
      ∷ iteration_steps index action repeat left (suc iteration)

  abbrev pub action_steps : ℕ → ScriptTable → Result ActionRepeat → List (M (Session X C O) Bool)
  action_steps index action (ok repeat) = iteration_steps index action repeat repeat.count 0
  action_steps index action (err why) = fail (in_action (suc index) why) ∷ []
  action_steps index action panic = (λ s. (s, panic)) ∷ []
  action_steps index action diverge = (λ s. (s, diverge)) ∷ []

  abbrev pub script_steps : ℕ → List ScriptTable → List (M (Session X C O) Bool)
  script_steps index [] = []
  script_steps index (action ∷ rest) =
      action_steps index action (parse_action_repeat action) ++ script_steps (suc index) rest

  run_iterations-run_all :
      (index : ℕ) (action : ScriptTable) (repeat : ActionRepeat) (left iteration : ℕ) (saw : Bool)
      (s : Session X C O)
      → run_iterations U fuel rounds index action repeat left iteration saw s
        ≡ continue (run_all (iteration_steps index action repeat left iteration) s) (joining saw)
  unfolding run_iterations
  run_iterations-run_all index action repeat zero iteration saw s =
      ap (λ b. (s, ok b)) (sym (or_false saw))
  run_iterations-run_all index action repeat (suc left) iteration saw s =
      (λ i. continue now (λ got s₁.
        run_iterations-run_all index action repeat left (suc iteration) (saw || got) s₁ i))
      ∙ ((λ i. continue now (λ got s₁. sym (joining-joining saw got (run_all later s₁)) i))
          ∙ sym (
              continue_assoc now (λ got s₁. continue (run_all later s₁) (joining got))
                (joining saw)))
    where
      now : Session X C O × Result Bool
      now = run_iteration U fuel rounds index action repeat iteration s

      later : List (M (Session X C O) Bool)
      later = iteration_steps index action repeat left (suc iteration)

  action-run_all :
      (index : ℕ) (action : ScriptTable) (p : Result ActionRepeat) (saw : Bool) (s : Session X C O)
      → continue
          (wrap_error (in_action (suc index)) (lift p) s)
          (λ r. run_iterations U fuel rounds index action r r.count 0 saw)
        ≡ continue (run_all (action_steps index action p) s) (joining saw)
  action-run_all index action (ok r) saw s = run_iterations-run_all index action r r.count 0 saw s
  action-run_all index action (err why) saw s = refl
  action-run_all index action panic saw s = refl
  action-run_all index action diverge saw s = refl

  run_actions-run_all :
      (index : ℕ) (actions : List ScriptTable) (saw : Bool) (s : Session X C O)
      → run_actions U fuel rounds index actions saw s
        ≡ continue (run_all (script_steps index actions) s) (joining saw)
  unfolding run_actions
  run_actions-run_all index [] saw s = ap (λ b. (s, ok b)) (sym (or_false saw))
  run_actions-run_all index (action ∷ rest) saw s =
      sym (continue_assoc parsed iterations later)
      ∙ (ap (λ q. continue q later) (action-run_all index action p saw s)
          ∙ (continue_assoc first (joining saw) later
              ∙ ((λ i.
                    continue first
                      (λ got s₁. run_actions-run_all (suc index) rest (saw || got) s₁ i))
                  ∙ ((λ i.
                        continue first
                          (λ got s₁. sym (joining-joining saw got (run_all others s₁)) i))
                      ∙ (sym (
                            continue_assoc first
                              (λ got s₁. continue (run_all others s₁) (joining got)) (joining saw))
                          ∙ ap (λ q. continue q (joining saw))
                              (sym (run_all-append (action_steps index action p) others s)))))))
    where
      p : Result ActionRepeat
      p = parse_action_repeat action

      parsed : Session X C O × Result ActionRepeat
      parsed = wrap_error (in_action (suc index)) (lift p) s

      iterations : ActionRepeat → M (Session X C O) Bool
      iterations r = run_iterations U fuel rounds index action r r.count 0 saw

      first : Session X C O × Result Bool
      first = run_all (action_steps index action p) s

      others : List (M (Session X C O) Bool)
      others = script_steps (suc index) rest

      later : Bool → M (Session X C O) Bool
      later got = run_actions U fuel rounds (suc index) rest got

  -- A script runs the iterations of its actions one after the other, up to the first error, which for
  -- an action whose repetition is refused stands in the place of its iterations. It has seen GOAWAY
  -- when one of the iterations has.
  pub execute_script-run_all :
      (actions : List ScriptTable) (s : Session X C O)
      → execute_script U fuel rounds actions s ≡ run_all (script_steps 0 actions) s
  unfolding execute_script
  execute_script-run_all actions s =
      run_actions-run_all 0 actions false s ∙ same (run_all (script_steps 0 actions) s)
    where
      same : (r : Session X C O × Result Bool) → continue r (joining false) ≡ r
      same (s, ok b) = refl
      same (s, err why) = refl
      same (s, panic) = refl
      same (s, diverge) = refl
