-- ===== src/Version.antt =====
-- src/version/types.rs: the hashes of a version file and the names of their algorithms.
pub mod Names
use Prim.Native.String.{String, compare, ◌++◌}
use Prim.Native.Nat.{Ordering, eq}
use okots_os.Base.{ℕ, Bool, true, false, Option, none, some, List, [], ◌∷◌, if◌then◌else◌}
use okots_os.Errors.{Error, Result, ok, err, new, not_supported}

-- A hash with its bytes.
pub data HashVariant : Type 0 where
  sha1 sha1_dc sha2_256 sha2_512 sha2_512_256 : List ℕ → HashVariant
  sha3_256 sha3_512 blake2_b blake2_s blake3 : List ℕ → HashVariant

abbrev pub bytes : HashVariant → List ℕ
bytes (sha1 b) = b
bytes (sha1_dc b) = b
bytes (sha2_256 b) = b
bytes (sha2_512 b) = b
bytes (sha2_512_256 b) = b
bytes (sha3_256 b) = b
bytes (sha3_512 b) = b
bytes (blake2_b b) = b
bytes (blake2_s b) = b
bytes (blake3 b) = b

unfoldable pub algo : HashVariant → String
algo (sha1 b) = "SHA-1"
algo (sha1_dc b) = "SHA-1DC"
algo (sha2_256 b) = "SHA2-256"
algo (sha2_512 b) = "SHA2-512"
algo (sha2_512_256 b) = "SHA2-512/256"
algo (sha3_256 b) = "SHA3-256"
algo (sha3_512 b) = "SHA3-512"
algo (blake2_b b) = "Blake2_B"
algo (blake2_s b) = "Blake2_S"
algo (blake3 b) = "Blake3"

-- a match of two strings
abbrev pub matches : String → String → Bool
matches a b = elim (compare a b) [ eq ↦ true | _ ↦ false ]

unfoldable pub from_parts : String → List ℕ → Result HashVariant
from_parts algo hash =
    if matches algo "SHA-1"
    then ok (sha1 hash)
    else if matches algo "SHA-1DC"
    then ok (sha1_dc hash)
    else if matches algo "SHA2-256"
    then ok (sha2_256 hash)
    else if matches algo "SHA2-512"
    then ok (sha2_512 hash)
    else if matches algo "SHA2-512/256"
    then ok (sha2_512_256 hash)
    else if matches algo "SHA3-256"
    then ok (sha3_256 hash)
    else if matches algo "SHA3-512"
    then ok (sha3_512 hash)
    else if matches algo "Blake2_B"
    then ok (blake2_b hash)
    else if matches algo "Blake2_S"
    then ok (blake2_s hash)
    else if matches algo "Blake3"
    then ok (blake3 hash)
    else err (new not_supported (some ("not supported hash type (" ++ algo ++ ")")))
