-- ===== src/Merkle/Hash.antt =====
-- smt/managed/hash.go: a hash is a Go byte slice, which may be nil.
use accumulate.Common.{◌++◌, [], Option, none, some, Bool}
use accumulate.Common.Bytes.{Bytes, equal_bytes}

-- `none` is Go's nil slice.
abbrev pub Hash : Type 0
Hash = Option Bytes

-- The content of a slice; nil has none.
abbrev pub bytes : Hash → Bytes
bytes none = []
bytes (some b) = b

abbrev pub HashFunc : Type 0
HashFunc = Bytes → Hash

-- `Hash.Combine`: the left content, then the right, hashed.
abbrev pub combine : HashFunc → Hash → Hash → Hash
combine hf left right = hf (bytes left ++ bytes right)

-- `Hash.Equal`: nil and the empty slice are equal.
abbrev pub equal : Hash → Hash → Bool
equal a b = equal_bytes (bytes a) (bytes b)

-- `Sha256` of a digest function: the result is never nil.
abbrev pub sha256 : (Bytes → Bytes) → HashFunc
sha256 sum b = some (sum b)
