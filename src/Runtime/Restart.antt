-- ===== src/Runtime/Restart.antt =====
-- src/client.cpp: a client that is stopped and started again.
use copilot_cpp.Prelude.{
  Bool, true, false, ◌&&◌, Option, none, some, String, ◌≡◌, refl, sym, ap, ◌∙◌, is_some,
  if◌then◌else◌, Option-cases, inl, inr,
}
use mathlib.Core.Path.{subst}
use copilot_cpp.Prelude.Int.{ℤ}
use copilot_cpp.Prelude.Exec.{Result, ok, err, pure, modify, ◌>>=◌}
use copilot_cpp.Json.{Json}
use copilot_cpp.Launch.{Options}
use copilot_cpp.Runtime.{
  connecting, connected, Failure, rpc_failure, exception, World, Link, Extras, Io, Action,
  tcp_connects, call, act, throw_some, socket, connect_tcp, open_parent, open_pipes,
  choose_transport, connect_to_server, start_in_process_runtime, start_cli_server, spawn_runtime,
  wait_for_port, kind_is, is_parent, is_in_process,
}
use copilot_cpp.Runtime.Protocol.{
  verify_protocol_version, handshake, versioned, or_ping, check_version, accept_reported,
  accept_version, ping, recover, handshake_failed, in_range, member, is_unknown_method,
}
use copilot_cpp.Runtime.Startup.{
  Way, loads, attaches, starts, way, reach_by, start, establish, reach_runtime, introduce, or_error,
  is_connected,
}
use copilot_cpp.Runtime.Shutdown.{shut_down, stop}
use copilot_cpp.Runtime.Frames.{Keeps, Keeps-bind, Keeps-if, Keeps-continue, Keeps-introduce}

module _ {J : Json} (W : World J) where
  open J use {Value}

  -- the process of the client, and the address it knows
  abbrev reached : Link J → Bool × Option (String × ℤ)
  reached l = (l.process, l.parsed)

  Stays-act : (a : Action) → Keeps reached (act J a)
  unfolding act
  Stays-act a l = refl

  Stays-throw_some : (o : Option String) → Keeps reached (throw_some J o)
  unfolding throw_some
  Stays-throw_some none l = refl
  Stays-throw_some (some what) l = refl

  Stays-connect_tcp : (a : Option (String × ℤ)) → Keeps reached (connect_tcp J W a)
  unfolding connect_tcp
  Stays-connect_tcp none l = refl
  Stays-connect_tcp (some (host, port)) l =
      let made = modify (λ l'. record l' { transport = some (socket host port) }) in
      let tail = act J (tcp_connects host port) >>= λ _. made in
      Keeps-bind reached (throw_some J (World.tcp_connect W host port)) (λ _. tail)
        (Stays-throw_some _)
        (λ _.
          Keeps-bind reached (act J (tcp_connects host port)) (λ _. made)
            (Stays-act (tcp_connects host port)) λ _ l'. refl)
        l

  Stays-choose_transport : (o : Options) → Keeps reached (choose_transport J W o)
  unfolding choose_transport open_parent open_pipes act
  Stays-choose_transport o l =
      let local = if o.use_stdio && l.process then open_pipes J W else connect_tcp J W l.parsed in
      let fresh = if kind_is is_parent o then open_parent J W else local in
      Keeps-if reached (is_some l.transport) (pure tt) fresh (λ _. refl)
        (Keeps-if reached (kind_is is_parent o) (open_parent J W) local (λ _. refl)
          (Keeps-if reached (o.use_stdio && l.process) (open_pipes J W) (connect_tcp J W l.parsed)
            (λ _. refl) (Stays-connect_tcp l.parsed)))
        l

  Stays-connect_to_server : (o : Options) (x : Extras J) → Keeps reached (connect_to_server J W o x)
  unfolding connect_to_server
  Stays-connect_to_server o x =
      Keeps-bind reached (choose_transport J W o) _ (Stays-choose_transport o) λ _ l. refl

  Stays-start_in_process_runtime : Keeps reached (start_in_process_runtime J W)
  unfolding start_in_process_runtime throw_some act
  Stays-start_in_process_runtime l = elim (Option-cases (World.load W)) [
    | inl e ↦ rw e refl
    | inr (what, e) ↦ rw e refl
  ]

  Stays-handshake_failed : (e : Failure J) → Keeps reached (handshake_failed J W e)
  unfolding handshake_failed ping call
  Stays-handshake_failed (rpc_failure e) =
      Keeps-if reached (is_unknown_method J e) _ _ (λ _. refl) (λ _. refl)
  Stays-handshake_failed (exception what) = λ _. refl

  Stays-recover : (r : Result (Failure J) Value) → Keeps reached (recover J W r)
  unfolding recover
  Stays-recover (ok v) l = refl
  Stays-recover (err e) l = Stays-handshake_failed e l

  Stays-handshake : (x : Extras J) → Keeps reached (handshake J W x)
  unfolding handshake call
  Stays-handshake x l = let (r, l') = call J W "connect" x.connect_params l in Stays-recover r l'

  Stays-versioned : (v : Value) → Keeps reached (versioned J W v)
  unfolding versioned or_ping ping call
  Stays-versioned v l = elim (Option-cases (member J v "protocolVersion")) [
    | inl e ↦ rw (e, or_ping) refl
    | inr (w, e) ↦ rw (e, or_ping) refl
  ]

  Stays-accept_version : (v : Value) (n : Option ℤ) → Keeps reached (accept_version J W v n)
  unfolding accept_version
  Stays-accept_version v none l = refl
  Stays-accept_version v (some n) l = Keeps-if reached (in_range n) _ _ (λ _. refl) (λ _. refl) l

  Stays-accept_reported : (v : Value) (w : Option Value) → Keeps reached (accept_reported J W v w)
  unfolding accept_reported
  Stays-accept_reported v none l = refl
  Stays-accept_reported v (some w) l = Stays-accept_version v (J.get_int w) l

  Stays-check_version : (v : Value) → Keeps reached (check_version J W v)
  unfolding check_version
  Stays-check_version v = Stays-accept_reported v (member J v "protocolVersion")

  Stays-verify_protocol_version : (x : Extras J) → Keeps reached (verify_protocol_version J W x)
  unfolding verify_protocol_version
  Stays-verify_protocol_version x =
      Keeps-bind reached (handshake J W x) _ (Stays-handshake x) λ first.
        Keeps-bind reached (versioned J W first) _ (Stays-versioned first) Stays-check_version

  Stays-or_error :
      (r : Result (Failure J) (Unit {0}) × Link J) → reached (or_error J W r).1 ≡ reached r.1
  unfolding or_error
  Stays-or_error (ok u, l) = refl
  Stays-or_error (err e, l) = refl

  -- what follows in `start` when the runtime is reached
  mark_connected : Io J (Unit {0})
  mark_connected = modify (λ l. record l { state = connected })

  after_reach : Extras J → Io J (Unit {0})
  after_reach x = verify_protocol_version J W x >>= λ _. (introduce J W x >>= λ _. mark_connected)

  Stays-after_reach : (x : Extras J) → Keeps reached (after_reach x)
  unfolding after_reach mark_connected
  Stays-after_reach x =
      Keeps-bind reached (verify_protocol_version J W x)
        (λ _. introduce J W x >>= λ _. mark_connected) (Stays-verify_protocol_version x)
        (λ _.
          Keeps-bind reached (introduce J W x) (λ _. mark_connected)
            (Keeps-introduce reached W (λ n more l. refl) x) (λ _ l. refl))

  -- `start` ends with the process and the address that reaching the runtime leaves
  start-reached :
      (o : Options) (x : Extras J) (l : Link J)
      → is_connected J W l.state ≡ false
      → reached (start J W o x l).1
        ≡ reached (reach_runtime J W o x (record l { state = connecting })).1
  unfolding start establish after_reach mark_connected
  start-reached o x l e =
      rw (e, start)
        (Stays-or_error (establish J W o x (record l { state = connecting }))
          ∙ Keeps-continue reached (reach_runtime J W o x (record l { state = connecting })).0
              (λ _. after_reach x) (λ _. Stays-after_reach x) _)

  reach_by-reached :
      (w : Way) (o : Options) (x : Extras J) → ¬ (w ≡ starts) → Keeps reached (reach_by J W w o x)
  unfolding reach_by
  reach_by-reached loads o x n =
      Keeps-bind reached (start_in_process_runtime J W) (λ _. connect_to_server J W o x)
        Stays-start_in_process_runtime λ _. Stays-connect_to_server o x
  reach_by-reached attaches o x n = Stays-connect_to_server o x
  reach_by-reached starts o x n = absurd (n refl)

  way-known : (inside parent : Bool) → ¬ (way inside parent true ≡ starts)
  unfolding way
  way-known true parent e = cc
  way-known false true e = cc
  way-known false false e = cc

  -- where an address is known, no runtime is spawned
  reach_runtime-known :
      (o : Options) (x : Extras J) (l : Link J)
      → is_some l.parsed ≡ true
      → reached (reach_runtime J W o x l).1 ≡ reached l
  unfolding reach_runtime
  reach_runtime-known o x l e =
      reach_by-reached _ o x
        (λ s. way-known (kind_is is_in_process o) (kind_is is_parent o) (ap (way _ _) (sym e) ∙ s))
        l

  start_cli_server-reached :
      (o : Options) (x : Extras J) (l : Link J) (stdio : Bool) (spawned : Option String)
      (announced : Result String ℤ) (port : ℤ)
      → stdio ≡ false
      → spawned ≡ none
      → announced ≡ ok port
      → reached ((spawn_runtime J W stdio spawned announced >>= λ _. connect_to_server J W o x) l).1
        ≡ (true, some ("localhost", port))
  unfolding spawn_runtime throw_some act wait_for_port
  start_cli_server-reached o x l stdio spawned announced port e f g =
      rw (e, f, g) (Stays-connect_to_server o x _)

  -- a runtime that announces its port is spawned, and its address is known from then on
  reach_runtime-spawned :
      (o : Options) (x : Extras J) (l : Link J) (port : ℤ)
      → way (kind_is is_in_process o) (kind_is is_parent o) (is_some l.parsed) ≡ starts
      → o.use_stdio ≡ false
      → World.spawn W ≡ none
      → World.announcement W ≡ ok port
      → reached (reach_runtime J W o x l).1 ≡ (true, some ("localhost", port))
  unfolding reach_runtime reach_by start_cli_server
  reach_runtime-spawned o x l port starting stdio spawned announced =
      subst (λ w. reached (reach_by J W w o x l).1 ≡ (true, some ("localhost", port)))
        (sym starting) (start_cli_server-reached o x l _ _ _ port stdio spawned announced)

module _ {J : Json} (W : World J) (o : Options) (x : Extras J) (l : Link J) (port : ℤ)
    (starting : way (kind_is is_in_process o) (kind_is is_parent o) (is_some l.parsed) ≡ starts)
    (idle : is_connected J W l.state ≡ false) (stdio : o.use_stdio ≡ false)
    (spawned : World.spawn W ≡ none) (announced : World.announcement W ≡ ok port) where
  -- A client that starts its own runtime over TCP (no address known, not in this process, not the
  -- parent; the runtime is spawned and announces its port) has a process after `start`. After one
  -- `stop` and the next `start`, it has no process, and the old port is still its address.
  pub restart_stale :
      let stopped = (stop J W (start J W o x l).1).1 in
      ((start J W o x l).1.process ≡ true)
      × ((start J W o x stopped).1.process ≡ false)
      × ((start J W o x stopped).1.parsed ≡ some ("localhost", port))
  unfolding stop shut_down
  restart_stale =
      let once =
        start-reached W o x l idle
        ∙ reach_runtime-spawned W o x (record l { state = connecting }) port starting stdio spawned
            announced in
      let stopped = (stop J W (start J W o x l).1).1 in
      let twice =
        start-reached W o x stopped refl
        ∙ reach_runtime-known W o x (record stopped { state = connecting })
            (ap (λ p. is_some p.1) once) in
      (ap (λ p. p.0) once, ap (λ p. p.0) twice, ap (λ p. p.1) twice ∙ ap (λ p. p.1) once)
