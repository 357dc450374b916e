-- ===== src/Version/Names.antt =====
-- src/version/types.rs: a hash is rebuilt from its name and its bytes.
use Prim.Native.String.{String}
use okots_os.Base.{ℕ, ◌≡◌, refl, Bool, true, false, List, if◌then◌else◌}
use okots_os.Errors.{Error, Result, ok, err, not_supported, ErrorType, error}
use okots_os.Version.{
  HashVariant, sha1, sha1_dc, sha2_256, sha2_512, sha2_512_256, sha3_256, sha3_512, blake2_b,
  blake2_s, blake3, bytes, algo, matches, from_parts,
}

-- The name and the bytes of a hash give the same hash back.
pub from_parts-algo : (v : HashVariant) → from_parts (algo v) (bytes v) ≡ ok v
unfolding from_parts algo
from_parts-algo (sha1 b) = refl
from_parts-algo (sha1_dc b) = refl
from_parts-algo (sha2_256 b) = refl
from_parts-algo (sha2_512 b) = refl
from_parts-algo (sha2_512_256 b) = refl
from_parts-algo (sha3_256 b) = refl
from_parts-algo (sha3_512 b) = refl
from_parts-algo (blake2_b b) = refl
from_parts-algo (blake2_s b) = refl
from_parts-algo (blake3 b) = refl

abbrev pub kind : Error → ErrorType
kind (error t m) = t

-- what `from_parts` may give for a name
abbrev pub IsParsed : String → List ℕ → Result HashVariant → Type 0
IsParsed name hash (ok v) = (matches name (algo v) ≡ true) × (bytes v ≡ hash)
IsParsed name hash (err e) = kind e ≡ not_supported

IsParsed-if :
    (name : String) (hash : List ℕ) (b : Bool) (v : HashVariant) (r : Result HashVariant)
    → bytes v ≡ hash
    → matches name (algo v) ≡ b
    → IsParsed name hash r
    → IsParsed name hash (if b then ok v else r)
IsParsed-if name hash true v r e h p = (h, e)
IsParsed-if name hash false v r e h p = p

-- Whatever the name, `from_parts` gives a hash of exactly these bytes whose own name is the one
-- asked for, or the error `NotSupported`.
pub from_parts-IsParsed :
    (name : String) (hash : List ℕ) → IsParsed name hash (from_parts name hash)
unfolding from_parts algo
from_parts-IsParsed name hash = IsParsed-if name hash _ (sha1 hash) _ refl refl (
    IsParsed-if name hash _ (sha1_dc hash) _ refl refl (
      IsParsed-if name hash _ (sha2_256 hash) _ refl refl (
        IsParsed-if name hash _ (sha2_512 hash) _ refl refl (
          IsParsed-if name hash _ (sha2_512_256 hash) _ refl refl (
            IsParsed-if name hash _ (sha3_256 hash) _ refl refl (
              IsParsed-if name hash _ (sha3_512 hash) _ refl refl (
                IsParsed-if name hash _ (blake2_b hash) _ refl refl (
                  IsParsed-if name hash _ (blake2_s hash) _ refl refl
                    (IsParsed-if name hash _ (blake3 hash) _ refl refl refl)))))))))
