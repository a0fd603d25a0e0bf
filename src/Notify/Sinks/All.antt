-- ===== src/Notify/Sinks/All.antt =====
-- notify.go: the calls of the scripts, whatever becomes of the other sinks.
use mathlib.Core.List.{append_assoc, append-nil}
use mathlib.Core.Path.{subst}
use fmon.Base.{
  ℕ, ◌≡◌, refl, sym, ap, ◌∙◌, Bool, true, false, Option, none, some, List, [], ◌∷◌, ◌++◌, map,
  if◌then◌else◌, Text, trim_right,
}
use fmon.Base.Int.{ℤ}
use fmon.Config.{SmtpConfig, ScriptConfig, Config, Validators}
use fmon.Config.Password.{read_password, check_mode, password}
use fmon.Exec.{
  Error, io_failed, smtp_failed, timed_out, Outcome, found, failed, Env, LogLine, StderrLine, World,
  Result, ok, err, Exec, pure, raise, ask, gets, modify, ◌>>=◌, warnf,
}
use fmon.Exec.Keeps.{
  After, Keeps, Keeps-pure, Keeps-raise, Keeps-ask, Keeps-modify, Keeps-bind, keeps_rules, Succeeds,
}
use fmon.Exec.Leads.{Leads, Leads-pure, Leads-raise, Leads-if, Leads-ask, Leads-bind}
use fmon.Notify.{newline, truncate_message}
use fmon.Notify.Delivery.{
  SmtpCommand, rcpt_to, ScriptCall, ScriptEnd, succeeded, not_started, past_deadline, ended_badly,
  Sink, sink_log, sink_smtp, sink_script,
}
use fmon.Notify.Render.{Formats, render}
use fmon.Notify.Sinks.{
  append_log, header_safe, send, connect, start_tls, authenticate, send_recipients, send_message,
  is_writable, warn_script, script_result, send_mail, script_call, run_script, Failures, attempted,
  run_sink, run_scripts, notify,
}
use fmon.Report.{Report, is_empty}

-- An error that cannot happen.
abbrev Never : World → Type 0
Never w = ⊥

After-Succeeds :
    {A : Type 0} (Q : World → Type 0) (o : Result A × World)
    → After Q Never o
    → Succeeds (λ _ w. Q w) o
After-Succeeds Q (ok a, w) h = h
After-Succeeds Q (err e, w) h = h

-- What holds after a sink, also if it failed, holds when Notify goes on.
run_sink-Leads :
    (v : Validators) (f : Formats) (P Q : World → Type 0)
    → ((w : World) (e : List StderrLine) (l : List LogLine)
        → Q w
        → Q (record w { stderr = e; log = l }))
    → (sink : Sink) (m : Exec (Unit {0})) (errs : Failures f v) → Leads P Q Q m
    → Leads P Q Never (run_sink f v sink m errs)
unfolding run_sink
run_sink-Leads v f P Q stable sink m errs k = record {
  at = λ env w h. by_result (m env w) (k.at env w h);
}
  where
    by_result :
        (o : Result (Unit {0}) × World) → After Q Q o → After Q Never (attempted f v sink errs o)
    by_result (ok _, w') q = q
    by_result (err e, w') q = stable w' _ _ q

Keeps-Leads : {A : Type 0} {P : World → Type 0} {m : Exec A} → Keeps P P m → Leads P P P m
Keeps-Leads k = record { at = λ env w h. k.at env w h }

-- The scripts called so far.
abbrev Ran : List ScriptCall → World → Type 0
Ran runs w = w.script_calls ≡ runs

module _ (runs : List ScriptCall) where
  Ran-ask {ℓ} : {A : Type ℓ} (g : Env → ℕ → A) → Keeps (Ran runs) (Ran runs) (ask g)
  Ran-ask g = Keeps-ask g (λ w h. h)

  Ran-raise {ℓ} : {A : Type ℓ} (e : Error) → Keeps (Ran runs) (Ran runs) (raise {A = A} e)
  Ran-raise e = Keeps-raise e (λ w h. h)

  Ran-on_fault :
      {A : Type 0} (g : A → Error) (m : Exec (Unit {0})) (o : Option A)
      → Keeps (Ran runs) (Ran runs) m
      → Keeps {0} {A = Unit {0}} (Ran runs) (Ran runs) (elim o [ some x ↦ raise (g x) | none ↦ m ])
  Ran-on_fault g m none k = k
  Ran-on_fault g m (some x) k = Ran-raise (g x)

  Ran-append_log : (t : Text) → Keeps (Ran runs) (Ran runs) (append_log t)
  unfolding append_log
  Ran-append_log t = Keeps-bind _ _ (Ran-ask (λ env n. env.append_fault n)) λ o.
      Ran-on_fault io_failed
        (modify (λ w. record w { log_file = w.log_file ++ (t ++ newline ∷ []) ∷ [] })) o
        (Keeps-modify (λ w. record w { log_file = w.log_file ++ (t ++ newline ∷ []) ∷ [] })
          (λ w h. h))

  Ran-send : (c : SmtpCommand) → Keeps (Ran runs) (Ran runs) (send c)
  unfolding send
  Ran-send c =
      Keeps-bind _ _ (Keeps-modify (λ w. record w { smtp_log = w.smtp_log ++ c ∷ [] }) (λ w h. h))
        λ _.
          Keeps-bind _ _ (Ran-ask (λ env n. env.smtp_fault n))
            λ o. Ran-on_fault (smtp_failed c) (pure tt) o (Keeps-pure tt)

  Ran-check_mode : (p : Text) (o : Outcome ℕ) → Keeps (Ran runs) (Ran runs) (check_mode p o)
  unfolding check_mode
  Ran-check_mode p (failed e) = Ran-raise _
  Ran-check_mode p (found mode) = search (keeps_rules, Ran-raise)

  Ran-read_password :
      (p : Text) (o : Outcome Text) → Keeps (Ran runs) (Ran runs) (read_password p o)
  unfolding read_password
  Ran-read_password p (failed e) = Ran-raise _
  Ran-read_password p (found t) = Keeps-pure _

  Ran-password : (s : SmtpConfig) → Keeps (Ran runs) (Ran runs) (password s)
  unfolding password
  Ran-password s = search (keeps_rules, Ran-ask, Ran-check_mode, Ran-read_password) depth 12

  Ran-connect : (t : Text) → Keeps (Ran runs) (Ran runs) (connect t)
  unfolding connect
  Ran-connect t = search (keeps_rules, Ran-send)

  Ran-start_tls : (t : Text) → Keeps (Ran runs) (Ran runs) (start_tls t)
  unfolding start_tls
  Ran-start_tls t = search (keeps_rules, Ran-ask, Ran-send, Ran-raise) depth 9

  Ran-authenticate : (s : SmtpConfig) (t : Text) → Keeps (Ran runs) (Ran runs) (authenticate s t)
  unfolding authenticate
  Ran-authenticate s t = search (keeps_rules, Ran-send)

  Ran-send_recipients : (ts : List Text) → Keeps (Ran runs) (Ran runs) (send_recipients ts)
  unfolding send_recipients
  Ran-send_recipients [] = Keeps-pure tt
  Ran-send_recipients (t ∷ ts) =
      Keeps-bind _ _ (Ran-send (rcpt_to (header_safe t))) λ _. Ran-send_recipients ts

  Ran-send_message :
      (s : SmtpConfig) (h b : Text) → Keeps (Ran runs) (Ran runs) (send_message s h b)
  unfolding send_message
  Ran-send_message s h b = search (keeps_rules, Ran-send, Ran-send_recipients) depth 14

  Ran-send_mail :
      (f : Formats) (s : SmtpConfig) (r : Report) → Keeps (Ran runs) (Ran runs) (send_mail f s r)
  unfolding send_mail
  Ran-send_mail f s r =
      search
        (keeps_rules, Ran-password, Ran-connect, Ran-start_tls, Ran-authenticate, Ran-send_message)
        depth 12

-- The path and the argument of a call.
abbrev pub told : ScriptCall → Text × Text
told c = (c.path, c.message)

module _ (v : Validators) (f : Formats) (r : Report) where
  Ran-warn_script :
      (E : World → Type 0) (runs : List ScriptCall) (p : Text) (o : Outcome ℕ)
      → Leads (Ran runs) (Ran runs) E (warn_script p o)
  unfolding warn_script warnf
  Ran-warn_script E runs p (failed e) = Leads-pure tt (λ w h. h)
  Ran-warn_script E runs p (found mode) =
      Leads-if (is_writable mode) _ _ (λ _. record { at = λ env w h. h })
        (λ _. Leads-pure tt (λ w h. h))

  Ran-script_result :
      (runs : List ScriptCall) (t : ℤ) (trim : Text → Text) (o : ScriptEnd)
      → Leads (Ran runs) (Ran runs) (Ran runs) (script_result t trim o)
  unfolding script_result
  Ran-script_result runs t trim succeeded = Leads-pure tt (λ w h. h)
  Ran-script_result runs t trim (not_started m) = Leads-raise _ (λ w h. h)
  Ran-script_result runs t trim past_deadline = Leads-raise (timed_out t) (λ w h. h)
  Ran-script_result runs t trim (ended_badly m out) = Leads-raise _ (λ w h. h)

  -- The record that a script was called.
  Ran-modify :
      (runs : List ScriptCall) (run : ScriptCall)
      → let after = runs ++ run ∷ [] in
        Leads
          (Ran runs)
          (Ran after)
          (Ran after)
          (modify (λ w. record w { script_calls = w.script_calls ++ run ∷ [] }))
  unfolding modify
  Ran-modify runs run = record { at = λ env w h. ap (λ (x : List ScriptCall). x ++ run ∷ []) h }

  -- A script is called once, whether it succeeds or not.
  Ran-run_script :
      (s : ScriptConfig) (runs : List ScriptCall)
      → let after = runs ++ script_call f v s r ∷ [] in
        Leads (Ran runs) (Ran after) (Ran after) (run_script f v r s)
  unfolding run_script
  Ran-run_script s runs =
      let run = script_call f v s r in
      let after = runs ++ run ∷ [] in
      Leads-bind _ _ (Leads-ask (λ env n. env.file_mode n s.path) (λ w h. h)) λ mode.
        Leads-bind _ _ (Ran-warn_script (Ran after) runs s.path mode) λ _.
          Leads-bind _ _ (Ran-modify runs run) λ _.
            Leads-bind _ _ (Leads-ask (λ env n. env.run_command n s.path run.message) (λ w h. h))
              λ o.
                Leads-bind _ _ (Leads-ask (λ env n. env.trim_space) (λ w h. h))
                  λ trim. Ran-script_result after run.timeout trim o

  Ran-run_scripts :
      (scripts : List ScriptConfig) (errs : Failures f v) (runs : List ScriptCall)
      → Leads
          (Ran runs)
          (Ran (runs ++ map (λ s. script_call f v s r) scripts))
          Never
          (run_scripts f v r scripts errs)
  unfolding run_scripts
  Ran-run_scripts [] errs runs = Leads-pure errs (λ w h. h ∙ sym (append-nil runs))
  Ran-run_scripts (s ∷ scripts) errs runs =
      let run = script_call f v s r in
      Leads-bind _ _
        (run_sink-Leads v f (Ran runs) (Ran (runs ++ run ∷ [])) (λ u e l q. q) (sink_script s.path)
          (run_script f v r s) errs (Ran-run_script s runs))
        λ errs'.
          subst
            (λ x. Leads (Ran (runs ++ run ∷ [])) (Ran x) Never (run_scripts f v r scripts errs'))
            (append_assoc runs (run ∷ []) (map (λ s. script_call f v s r) scripts))
            (Ran-run_scripts scripts errs' (runs ++ run ∷ []))

  module _ (runs : List ScriptCall) where
    Ran-log_sink :
        (t : Text) → Leads (Ran runs) (Ran runs) Never (run_sink f v sink_log (append_log t) [])
    Ran-log_sink t =
        run_sink-Leads v f (Ran runs) (Ran runs) (λ _ _ _ q. q) sink_log (append_log t) []
          (Keeps-Leads (Ran-append_log runs t))

    Ran-smtp_sink :
        (s : SmtpConfig) (errs : Failures f v)
        → Leads
            (Ran runs)
            (Ran runs)
            Never
            (if s.enabled then run_sink f v sink_smtp (send_mail f s r) errs else pure errs)
    Ran-smtp_sink s errs =
        Leads-if s.enabled _ _
          (λ _.
            run_sink-Leads v f (Ran runs) (Ran runs) (λ _ _ _ q. q) sink_smtp (send_mail f s r) errs
              (Keeps-Leads (Ran-send_mail runs f s r)))
          (λ _. Leads-pure errs (λ w h. h))

    -- The sinks with the settings of the time.
    Ran-sinks :
        (cfg : Config)
        → Leads (Ran runs) (Ran (runs ++ map (λ s. script_call f v s r) cfg.scripts)) Never (do
          errs ← run_sink f v sink_log (append_log (render f cfg.log.detail r)) []
          errs' ←
              (if cfg.smtp.enabled
                then run_sink f v sink_smtp (send_mail f cfg.smtp r) errs
                else pure errs)
          run_scripts f v r cfg.scripts errs')
    Ran-sinks cfg = Leads-bind _ _ (Ran-log_sink (render f cfg.log.detail r)) λ errs.
        Leads-bind _ _ (Ran-smtp_sink cfg.smtp errs) λ errs'. Ran-run_scripts cfg.scripts errs' runs

  -- The path and the argument that a script asks for: the report in its level of detail, truncated to
  -- its limit, without newlines at the end.
  abbrev pub wanted : ScriptConfig → Text × Text
  wanted s =
      (s.path, trim_right newline (truncate_message (render f s.detail r) s.max_message_bytes))

  told-calls :
      (calls : List ScriptCall) (scripts : List ScriptConfig)
      → map told (calls ++ map (λ s. script_call f v s r) scripts)
        ≡ map told calls ++ map wanted scripts
  told-calls [] [] = refl
  told-calls [] (s ∷ scripts) =
      ap
        (λ (l : List (Text × Text)).
          (s.path, trim_right newline (truncate_message (render f s.detail r) s.max_message_bytes))
          ∷ l)
        (told-calls [] scripts)
  told-calls (c ∷ calls) scripts =
      ap (λ (l : List (Text × Text)). told c ∷ l) (told-calls calls scripts)

  notify-calls :
      (env : Env) (w : World)
      → is_empty r ≡ false
      → Succeeds
          (λ _ w'. w'.script_calls ≡ w.script_calls ++ map (λ s. script_call f v s r) w.cfg.scripts)
          (notify f v r env w)
  unfolding notify gets ◌>>=◌
  notify-calls env w e = rw e (
      After-Succeeds (Ran (w.script_calls ++ map (λ s. script_call f v s r) w.cfg.scripts)) _
        ((Ran-sinks w.script_calls w.cfg).at env w refl))

  -- Whatever fails (the log file, the mail server at any step, any script, also one that cannot be
  -- started), Notify returns. If the report is empty, no script was called; otherwise each configured
  -- script was called once, in order, with its path and, as the only argument, the report in its level
  -- of detail, truncated to its limit and without newlines at the end. A call is one of `cmd.Run`,
  -- whether or not that starts a process.
  pub notify-Ran :
      (env : Env) (w : World)
      → Succeeds
          (λ _ w'.
            map told w'.script_calls
            ≡ map told w.script_calls ++ map wanted (if is_empty r then [] else w.cfg.scripts))
          (notify f v r env w)
  notify-Ran env w = by_content (is_empty r) refl
    where
      by_calls :
          (o : Result (Failures f v) × World)
          → Succeeds
              (λ _ w'.
                w'.script_calls ≡ w.script_calls ++ map (λ s. script_call f v s r) w.cfg.scripts)
              o
          → Succeeds
              (λ _ w'.
                map told w'.script_calls ≡ map told w.script_calls ++ map wanted w.cfg.scripts)
              o
      by_calls (ok _, u) h =
          ap (λ (l : List ScriptCall). map told l) h ∙ told-calls w.script_calls w.cfg.scripts
      by_calls (err e, u) h = h

      by_content :
          (b : Bool)
          → is_empty r ≡ b
          → Succeeds
              (λ _ w'.
                map told w'.script_calls
                ≡ map told w.script_calls ++ map wanted (if b then [] else w.cfg.scripts))
              (notify f v r env w)
      by_content true e = unfold notify pure in rw e (sym (append-nil (map told w.script_calls)))
      by_content false e = by_calls (notify f v r env w) (notify-calls env w e)
