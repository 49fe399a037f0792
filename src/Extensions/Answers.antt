-- ===== src/Extensions/Answers.antt =====
-- src/canvas.cpp, src/session.cpp: requests to the actions of a canvas.
use text.Mathlib.Text.{starts_with}
use mathlib.Core.Path.{subst}
use copilot_cpp.Prelude.{
  ◌≡◌, ◌≢◌, refl, sym, ap, ◌∙◌, Bool, true, false, Option, none, some, String, List, [], ◌∷◌, ◌++◌,
  All,
}
use copilot_cpp.Prelude.Text.{str_eq, lookup, eq_refl}
use copilot_cpp.Prelude.Exec.{Result, ok, err, ok-injective}
use copilot_cpp.Prelude.Try.{◌>>=◌, ◌>>◌}
use copilot_cpp.Json.{Json, IsLawful}
use copilot_cpp.Extensions.{
  Fault, canvas_error, other, Handler, CanvasAction, CanvasOptions, Canvas, Declared, wire,
  declare_actions, made, create, handle_action, register_canvases, value_of, caught, perform,
  refuse_if, is_empty_handler, handle_canvas_request,
}

module _ (J : Json) where
  -- what succeeds behind a check
  behind :
      {B : Type 0} (b : Bool) (what : String) (r : Result Fault B) (x : B)
      → (refuse_if J b what >> r) ≡ ok x
      → r ≡ ok x
  behind true what r x e = absurd cc
  behind false what r x e = e

module _ {J : Json} where
  open J use {Value, text}

  abbrev pub IsOther : String → CanvasAction J → Type 0
  IsOther name a = str_eq a.name name ≡ false

  abbrev starts_canvas : CanvasAction J → Bool
  starts_canvas a = starts_with a.name "canvas."

  abbrev next : CanvasAction J → Declared J → Declared J
  next a (wires, handlers) = (wires ++ wire J a ∷ [], (a.name, a.handler) ∷ handlers)

  declared_next :
      (a : CanvasAction J) (actions : List (CanvasAction J)) (d d' : Declared J)
      → declare_actions J (a ∷ actions) d ≡ ok d'
      → declare_actions J actions (next a d) ≡ ok d'
  unfolding declare_actions
  declared_next a actions (wires, handlers) d' e =
      behind J (starts_canvas a) "canvas action names cannot start with 'canvas.'"
        (declare_actions J actions (next a (wires, handlers))) d' e

  kept :
      (actions : List (CanvasAction J)) (d d' : Declared J) (name : String)
      (h : Handler Value Value)
      → declare_actions J actions d ≡ ok d'
      → All (IsOther name) actions
      → lookup name d.1 ≡ some h
      → lookup name d'.1 ≡ some h
  unfolding declare_actions
  kept [] d d' name h e later at_name =
      subst (λ (x : Declared J). lookup name x.1 ≡ some h) (ok-injective d d' e) at_name
  kept (a ∷ actions) d d' name h e later at_name =
      kept actions (next a d) d' name h (declared_next a actions d d' e) later.1
        (rw (later.0) at_name)

  declare_actions-lookup :
      (before after : List (CanvasAction J)) (a : CanvasAction J) (d d' : Declared J)
      → declare_actions J (before ++ a ∷ after) d ≡ ok d'
      → All (IsOther a.name) after
      → lookup a.name d'.1 ≡ some a.handler
  declare_actions-lookup [] after a d d' e later =
      kept after (next a d) d' a.name a.handler (declared_next a after d d' e) later
        (rw (eq_refl a.name) refl)
  declare_actions-lookup (b ∷ before) after a d d' e later =
      declare_actions-lookup before after a (next b d) d'
        (declared_next b (before ++ a ∷ after) d d' e) later

  made_of :
      (o : CanvasOptions J) (c : Canvas J) (r : Result Fault (Declared J))
      → (r >>= λ d. ok (made J o d)) ≡ ok c
      → (d : Declared J) × (r ≡ ok d) × (made J o d ≡ c)
  made_of o c (ok d) e = (d, refl, ok-injective (made J o d) c e)
  made_of o c (err x) e = absurd cc

  create-made :
      (o : CanvasOptions J) (c : Canvas J)
      → create J o ≡ ok c
      → (d : Declared J) × (declare_actions J o.actions ([], []) ≡ ok d) × (made J o d ≡ c)
  unfolding create
  create-made o c e =
      let r = declare_actions J o.actions ([], []) >>= λ d. ok (made J o d) in
      let checked : (refuse_if J (is_empty_handler J o.open_) "canvas open handler is required"
            >> r)
          ≡ ok c =
        behind J (str_eq o.id "") "canvas id cannot be empty" _ c e in
      made_of o c (declare_actions J o.actions ([], []))
        (behind J (is_empty_handler J o.open_) "canvas open handler is required" r c checked)

  abbrev pub HasOtherId : String → Option (Canvas J) → Type 0
  HasOtherId id none = Unit
  HasOtherId id (some c) = str_eq c.id id ≡ false

  register_kept :
      (cs : List (Option (Canvas J))) (m : List (String × Canvas J)) (id : String) (c : Canvas J)
      → All (HasOtherId id) cs
      → lookup id m ≡ some c
      → lookup id (register_canvases J cs m) ≡ some c
  unfolding register_canvases
  register_kept [] m id c others e = e
  register_kept (none ∷ cs) m id c others e = register_kept cs m id c others.1 e
  register_kept (some k ∷ cs) m id c others e =
      register_kept cs ((k.id, k) ∷ m) id c others.1 (rw (others.0) e)

  register_canvases-lookup :
      (before after : List (Option (Canvas J))) (m : List (String × Canvas J)) (c : Canvas J)
      → All (HasOtherId c.id) after
      → lookup c.id (register_canvases J (before ++ some c ∷ after) m) ≡ some c
  unfolding register_canvases
  register_canvases-lookup [] after m c others =
      register_kept after ((c.id, c) ∷ m) c.id c others (rw (eq_refl c.id) refl)
  register_canvases-lookup (none ∷ before) after m c others =
      register_canvases-lookup before after m c others
  register_canvases-lookup (some k ∷ before) after m c others =
      register_canvases-lookup before after ((k.id, k) ∷ m) c others

  read_text :
      (L : IsLawful J) (params : Value) (key s : String)
      → Json.at J params key ≡ some (text s)
      → value_of J params key ≡ ok s
  read_text L params key s e = rw (e, IsLawful.get_string-text L s) refl

  perform-action :
      (L : IsLawful J) (c : Canvas J) (action : String) (f : Value → Result Fault Value)
      (params : Value)
      → Json.at J params "actionName" ≡ some (text action)
      → lookup action c.actions ≡ some (some f)
      → perform J c "canvas.action.invoke" params ≡ f params
  unfolding perform handle_action
  perform-action L c action f params named found =
      rw (read_text L params "actionName" action named, found) refl

  -- A request for an action runs the handler that the extension gave for it: with a canvas that was
  -- created and registered, no later canvas of the same id registered with it, and no later action of
  -- the same name declared, the answer is what the action's handler gives for the request, a
  -- CanvasError of the handler being answered as an object with its code and message.
  pub handle_canvas_request-action :
      (L : IsLawful J) (o : CanvasOptions J) (c : Canvas J) (before after : List (CanvasAction J))
      (a : CanvasAction J) (f : Value → Result Fault Value)
      (earlier later : List (Option (Canvas J))) (m : List (String × Canvas J)) (params : Value)
      → create J o ≡ ok c
      → o.actions ≡ before ++ a ∷ after
      → a.handler ≡ some f
      → All (IsOther a.name) after
      → All (HasOtherId c.id) later
      → Json.at J params "canvasId" ≡ some (text c.id)
      → Json.at J params "actionName" ≡ some (text a.name)
      → handle_canvas_request J
          (register_canvases J (earlier ++ some c ∷ later) m)
          "canvas.action.invoke"
          params
        ≡ caught J (f params)
  unfolding handle_canvas_request
  handle_canvas_request-action L o c before after a f earlier later m params e parts handled unique
        others at_canvas named =
      let (d, declared, same) = create-made o c e in
      let found : lookup a.name c.actions ≡ some (some f) =
        ap (λ (k : Canvas J). lookup a.name k.actions) (sym same)
        ∙ declare_actions-lookup before after a ([], []) d
            (ap (λ l. declare_actions J l ([], [])) (sym parts) ∙ declared) unique
        ∙ ap some handled in
      rw
        (
          read_text L params "canvasId" c.id at_canvas,
          register_canvases-lookup earlier later m c others,
          perform-action L c a.name f params named found,
        )
        refl

  -- A CanvasError leaves a request only when no canvas has the id: the errors of a registered canvas
  -- are answers.
  pub handle_canvas_request-ne_canvas_error :
      (canvases : List (String × Canvas J)) (method id : String) (params : Value) (c : Canvas J)
      (code message : String)
      → value_of J params "canvasId" ≡ ok id
      → lookup id canvases ≡ some c
      → handle_canvas_request J canvases method params ≢ err (canvas_error code message)
  unfolding handle_canvas_request
  handle_canvas_request-ne_canvas_error canvases method id params c code message e found p =
      stays (perform J c method params) (sym (rw (e, found) refl) ∙ p)
    where
      stays : (r : Result Fault Value) → caught J r ≡ err (canvas_error code message) → ⊥
      stays (ok v) q = absurd cc
      stays (err (canvas_error c m)) q = absurd cc
      stays (err (other what)) q = absurd cc
