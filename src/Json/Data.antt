-- ===== src/Json/Data.antt =====
-- JSON values; a `dict` is a list of entries in insertion order.
use mk_db.Base.{ℕ, Bool, Text}

-- Integers have a sign and a magnitude, `int true n` for -n - 1; a float is its 64-bit pattern,
-- since the storage layer only keeps it.
mutual
  pub data Json : Type 0 where
    null : Json
    bool : Bool → Json
    int : Bool → ℕ → Json
    float : ℕ → Json
    str : Text → Json
    arr : Items → Json
    obj : Fields → Json

  pub data Items : Type 0 where
    nil : Items
    cons : Json → Items → Items

  pub data Fields : Type 0 where
    end : Fields
    field : Text → Json → Fields → Fields
