-- ===== src/Runtime/Frames.antt =====
-- src/client.cpp: what the methods of the connection leave as it is.
use copilot_cpp.Prelude.{
  Bool, true, false, Option, none, some, String, ◌≡◌, refl, ◌∙◌, if◌then◌else◌, ℕ, List, [],
}
use copilot_cpp.Prelude.Exec.{Result, ok, err, continue, ◌>>=◌}
use copilot_cpp.Json.{Json}
use copilot_cpp.Runtime.{Failure, World, Link, Extras, Io, Action, call}
use copilot_cpp.Runtime.Startup.{introduce, tell}

-- `view` is what is read of the fields; it reads neither the calls nor the actions.
module _ {J : Json} {X : Type 0} (view : Link J → X) where
  open J use {Value, object}

  -- An action that leaves the viewed fields as they are.
  abbrev pub Keeps : {A : Type 0} → Io J A → Type 0
  Keeps m = (l : Link J) → view (m l).1 ≡ view l

  pub Keeps-continue :
      {A B : Type 0} (r : Result (Failure J) A) (f : A → Io J B)
      → ((a : A) → Keeps (f a))
      → Keeps (continue r f)
  Keeps-continue (ok a) f k l = k a l
  Keeps-continue (err e) f k l = refl

  pub Keeps-bind :
      {A B : Type 0} (m : Io J A) (f : A → Io J B)
      → Keeps m
      → ((a : A) → Keeps (f a))
      → Keeps (m >>= f)
  Keeps-bind m f h k l = Keeps-continue (m l).0 f k (m l).1 ∙ h l

  pub Keeps-if :
      {A : Type 0} (b : Bool) (m n : Io J A) → Keeps m → Keeps n → Keeps (if b then m else n)
  Keeps-if true m n h k = h
  Keeps-if false m n h k = k

  module _ (W : World J)
      (blind : (n : ℕ) (more : List Action) (l : Link J)
        → view (record l { calls_made = n; actions = more }) ≡ view l) where
    pub Keeps-call : (method : String) (params : Value) → Keeps (call J W method params)
    unfolding call
    Keeps-call method params l = blind _ _ l

    Keeps-tell : (method : String) (params : Option Value) → Keeps (tell J W method params)
    unfolding tell
    Keeps-tell method none l = refl
    Keeps-tell method (some v) l =
        Keeps-bind (call J W method v) (λ _ l'. (ok tt, l')) (Keeps-call method v) (λ _ l'. refl) l

    pub Keeps-introduce : (x : Extras J) → Keeps (introduce J W x)
    unfolding introduce
    Keeps-introduce x l =
        let provider =
          tell J W "llmInference.setProvider" (if l.bridge then some (object []) else none) in
        let plugins = tell J W "plugins.builtin.set" x.plugin_paths in
        let files = tell J W "sessionFs.setProvider" x.session_fs in
        Keeps-bind provider (λ _. plugins >>= λ _. files) (Keeps-tell _ _)
          (λ _. Keeps-bind plugins (λ _. files) (Keeps-tell _ _) λ _. Keeps-tell _ _) l
