-- ===== src/Errors.antt =====
-- include/libos/errors.h: the error codes that the library returns as negative integers.
use libos.Prelude.{ℕ}

pub data Error : Type 0 where
  bad_tree no_mem no_trans busy invalid bad_image bad_addr range : Error
  unhandled not_found would_block unknown hardware no_resource : Error

-- A call that returns a value, or one of the codes.
pub data Result {ℓ} (A : Type ℓ) : Type ℓ where
  ok : A → Result A
  err : Error → Result A

-- The magnitude of the negative integer that stands for the error.
unfoldable pub code : Error → ℕ
code bad_tree = 256
code no_mem = 257
code no_trans = 258
code busy = 259
code invalid = 260
code bad_image = 261
code bad_addr = 262
code range = 263
code unhandled = 264
code not_found = 265
code would_block = 266
code unknown = 267
code hardware = 268
code no_resource = 269
