-- ===== src/Base/Text.antt =====
-- Messages of the errors. They are logged or shown and never inspected, so a `format!` keeps its
-- parts and is not rendered.
use Prim.Native.Nat.{ℕ}
use Prim.Native.String.{String}
use mathlib.Core.List.{List, [], ◌∷◌}

-- A literal, a `{}` of a number, a `{:02x}` of a byte, and a name by its characters.
pub data Part : Type 0 where
  text : String → Part
  num : ℕ → Part
  hex : ℕ → Part
  chars : List ℕ → Part

abbrev pub Message : Type 0
Message = List Part

abbrev pub plain : String → Message
plain s = text s ∷ []
