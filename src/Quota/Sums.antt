-- ===== src/Quota/Sums.antt =====
-- The reserved sums under the purge, under the clock and under each write.
use ai_platform_mini.Prelude.{
  ℕ, ◌+◌, ◌≤◌, String, ◌≡◌, refl, Bool, ◌&&◌, none, some, [], ◌∷◌, if◌then◌else◌, arith,
}
use ai_platform_mini.Prelude.Dict.{Dict, get, put, remove}
use ai_platform_mini.Quota.{Entry, is_live, reserved, purge}

-- What one entry adds to the sum.
abbrev pub weight : (Entry → Bool) → ℕ → Entry → ℕ
weight test now e = if test e && is_live now e then e.reserved_tokens else 0

module _ (test : Entry → Bool) where
  -- A purge drops only entries that no longer count.
  pub reserved-purge :
      (now : ℕ) (d : Dict Entry) → reserved test now (purge now d) ≡ reserved test now d
  unfolding reserved purge
  reserved-purge now [] = refl
  reserved-purge now ((id, e) ∷ d) = ground (arith, reserved-purge now d)

  pub reserved_later :
      (now later : ℕ) (d : Dict Entry) → now ≤ later → reserved test later d ≤ reserved test now d
  unfolding reserved
  reserved_later now later [] h = omega arith
  reserved_later now later ((id, e) ∷ d) h = ground (arith, reserved_later now later d h)

  pub reserved-put_new :
      (now : ℕ) (id : String) (e : Entry) (d : Dict Entry)
      → get id d ≡ none
      → reserved test now (put id e d) ≡ reserved test now d + weight test now e
  unfolding reserved get put
  reserved-put_new now id e [] h = ground arith
  reserved-put_new now id e ((j, old) ∷ d) h = ground (arith, reserved-put_new now id e d)

  pub reserved-put_old :
      (now : ℕ) (id : String) (old e : Entry) (d : Dict Entry)
      → get id d ≡ some old
      → reserved test now (put id e d) + weight test now old
        ≡ reserved test now d + weight test now e
  unfolding reserved get put
  reserved-put_old now id old e [] h = cc
  reserved-put_old now id old e ((j, f) ∷ d) h = ground (arith, reserved-put_old now id old e d)

  pub reserved-put-le :
      (now : ℕ) (id : String) (e : Entry) (d : Dict Entry)
      → reserved test now (put id e d) ≤ reserved test now d + weight test now e
  unfolding reserved put
  reserved-put-le now id e [] = ground arith
  reserved-put-le now id e ((j, old) ∷ d) = ground (arith, reserved-put-le now id e d)

  pub reserved-remove :
      (now : ℕ) (id : String) (d : Dict Entry)
      → reserved test now (remove id d) ≤ reserved test now d
  unfolding reserved remove
  reserved-remove now id [] = omega arith
  reserved-remove now id ((j, e) ∷ d) = ground (arith, reserved-remove now id d)

-- A live entry outlives the purge.
pub get-purge :
    (now : ℕ) (id : String) (e : Entry) (d : Dict Entry)
    → get id d ≡ some e
    → is_live now e ≡ Bool.true
    → get id (purge now d) ≡ some e
unfolding get purge
get-purge now id e [] h live = cc
get-purge now id e ((j, f) ∷ d) h live = ground (arith, get-purge now id e d)
