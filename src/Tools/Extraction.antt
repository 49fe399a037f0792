-- ===== src/Tools/Extraction.antt =====
-- tool_builder.hpp: how the arguments of a call are read from an object.
use copilot_cpp.Prelude.{◌≡◌, refl, true, false, none, some, String}
use copilot_cpp.Prelude.Text.{lookup}
use copilot_cpp.Prelude.Exec.{ok, err}
use copilot_cpp.Json.{Json, IsLawful}
use copilot_cpp.Tools.{
  Shape, boolean, integer, number, text, array, optional, object, Meaning, Conversions, Members,
  given, get_at, extract_arg, extract_arg_or, is_optional,
}

module _ {J : Json} (C : Conversions J) where
  open C use {scalars, get, out_of_range}
  open J use {Value, is_null}

  -- The value of a member is read as `x`: an optional one as the value of its type.
  abbrev pub Converts : (s : Shape) → Value → Meaning scalars s → Type 0
  Converts (optional s) v x = (y : Meaning scalars s) × Converts s v y × (x ≡ some y)
  Converts (array s) v x = get (array s) v ≡ ok x
  Converts boolean v x = get boolean v ≡ ok x
  Converts integer v x = get integer v ≡ ok x
  Converts number v x = get number v ≡ ok x
  Converts text v x = get text v ≡ ok x
  Converts object v x = get object v ≡ ok x

  module _ (L : IsLawful J) (m : Members J) (name : String) where
    given-some :
        (v : Value)
        → lookup name m ≡ some v
        → is_null v ≡ false
        → given C (Json.object J m) name ≡ true
    given-some v e n =
        rw (IsLawful.contains-object L m name, IsLawful.at-object L m name, e) (rw n refl)

    pub given-none : lookup name m ≡ none → given C (Json.object J m) name ≡ false
    given-none e = rw (IsLawful.contains-object L m name, IsLawful.at-object L m name, e) refl

    get_at-some :
        (s : Shape) (v : Value) (x : Meaning scalars s)
        → lookup name m ≡ some v
        → get s v ≡ ok x
        → get_at C s (Json.object J m) name ≡ ok x
    unfolding get_at
    get_at-some s v x e c = rw (IsLawful.at-object L m name, e) c

    pub extract_arg-some :
        (s : Shape) (v : Value) (x : Meaning scalars s)
        → lookup name m ≡ some v
        → is_null v ≡ false
        → Converts s v x
        → extract_arg C s (Json.object J m) name ≡ ok x
    unfolding extract_arg
    extract_arg-some (optional s) v x e n (y, c, p) =
        rw (given-some v e n, extract_arg-some s v y e n c, p) refl
    extract_arg-some (array s) v x e n c = get_at-some (array s) v x e c
    extract_arg-some boolean v x e n c = get_at-some boolean v x e c
    extract_arg-some integer v x e n c = get_at-some integer v x e c
    extract_arg-some number v x e n c = get_at-some number v x e c
    extract_arg-some text v x e n c = get_at-some text v x e c
    extract_arg-some object v x e n c = get_at-some object v x e c

    get_at-none :
        (s : Shape)
        → lookup name m ≡ none
        → get_at C s (Json.object J m) name ≡ err (out_of_range (Json.object J m) name)
    unfolding get_at
    get_at-none s e = rw (IsLawful.at-object L m name, e) refl

    -- a member that is missing, for a type that is not optional
    pub extract_arg-none :
        (s : Shape)
        → is_optional s ≡ false
        → lookup name m ≡ none
        → extract_arg C s (Json.object J m) name ≡ err (out_of_range (Json.object J m) name)
    unfolding extract_arg
    extract_arg-none (optional s) p e = absurd cc
    extract_arg-none (array s) p e = get_at-none (array s) e
    extract_arg-none boolean p e = get_at-none boolean e
    extract_arg-none integer p e = get_at-none integer e
    extract_arg-none number p e = get_at-none number e
    extract_arg-none text p e = get_at-none text e
    extract_arg-none object p e = get_at-none object e

    pub extract_arg-optional :
        (s : Shape)
        → lookup name m ≡ none
        → extract_arg C (optional s) (Json.object J m) name ≡ ok none
    unfolding extract_arg
    extract_arg-optional s e = rw (given-none e) refl

    pub extract_arg_or-some :
        (s : Shape) (v : Value) (x d : Meaning scalars s)
        → lookup name m ≡ some v
        → is_null v ≡ false
        → Converts s v x
        → extract_arg_or C s (Json.object J m) name d ≡ ok x
    unfolding extract_arg_or
    extract_arg_or-some s v x d e n c = rw (given-some v e n) (extract_arg-some s v x e n c)

    pub extract_arg_or-none :
        (s : Shape) (d : Meaning scalars s)
        → lookup name m ≡ none
        → extract_arg_or C s (Json.object J m) name d ≡ ok d
    unfolding extract_arg_or
    extract_arg_or-none s d e = rw (given-none e) refl
