-- ===== src/Records/History.antt =====
-- What a history of calls on nested batches has written, told from the calls alone.
use accumulate.Common.{
  ◌≡◌, refl, ap, sym, ◌∙◌, List, [], ◌∷◌, Option, none, some, Bool, true, false, Bool-cases,
  Option-cases, inl, inr, if◌then◌else◌,
}
use accumulate.Common.Bytes.{Bytes}
use accumulate.Records.{
  Status, undefined, not_found, clean, dirty, Got, got, missing, failed, Value, Codec, new_value,
  kv_get, loaded, get, put_value, is_dirty, commit,
}
use accumulate.Records.Coherent.{or_fresh, contents, IsCoherent, IsGot, get-contents}
use accumulate.Records.Committed.{some-subst, commit-IsCoherent}

-- A call on the innermost batch's value, or a batch that begins or ends.
pub data Call (A : Type 0) : Type 0 where
  getting : Call A
  putting : A → Call A
  beginning : Bool → Call A
  discarding : Call A
  committing : Call A

-- Of each open batch, the innermost first: if it allows a missing value, and what was written in it or
-- committed to it last.
abbrev pub Written : Type 0 → Type 0
Written A = List (Bool × Option A)

module _ {A : Type 0} (codec : Codec A) where
  -- What a batch that ends with a write hands on: to the batch around it, or to the store.
  unfoldable pub hand_on : A → Written A → Option Bytes → Written A × Option Bytes
  hand_on u ((allow, w) ∷ ws) kv = ((allow, some u) ∷ ws, kv)
  hand_on u [] kv = ([], codec.marshal u)

  unfoldable pub write_call : Call A → Written A × Option Bytes → Written A × Option Bytes
  unfolding hand_on
  write_call getting s = s
  write_call (beginning allow) (ws, kv) = ((allow, none) ∷ ws, kv)
  write_call (putting u) ([], kv) = ([], kv)
  write_call (putting u) ((allow, w) ∷ ws, kv) = ((allow, some u) ∷ ws, kv)
  write_call discarding ([], kv) = ([], kv)
  write_call discarding (w ∷ ws, kv) = (ws, kv)
  write_call committing ([], kv) = ([], kv)
  write_call committing ((allow, none) ∷ ws, kv) = (ws, kv)
  write_call committing ((allow, some u) ∷ ws, kv) = hand_on u ws kv

  -- What is written after a history, the last call first, which begins with a store and no batch.
  unfoldable pub written_by : List (Call A) → Option Bytes → Written A × Option Bytes
  unfolding write_call
  written_by [] kv = ([], kv)
  written_by (c ∷ cs) kv = write_call c (written_by cs kv)

  -- What there is to read: the innermost write, or what the store has, where a missing value may be the
  -- fresh one.
  unfoldable pub readable : Written A → Option Bytes → Got A
  unfolding or_fresh
  readable [] kv = kv_get codec kv
  readable ((allow, some u) ∷ ws) kv = got u
  readable ((allow, none) ∷ ws) kv = or_fresh codec allow (readable ws kv)

  -- The stack of batches and the stored bytes after a history, the last call first.
  pub data After (kv : Option Bytes) : List (Call A) → List (Value A) → Option Bytes → Type 0 where
    start : After kv [] [] kv
    gets :
        {cs : List (Call A)} {vs : List (Value A)} {now : Option Bytes}
        → After kv cs vs now
        → After kv (getting ∷ cs) (get codec vs now).1 now
    puts :
        {cs : List (Call A)} {v : Value A} {vs : List (Value A)} {now : Option Bytes} (u : A)
        → After kv cs (v ∷ vs) now
        → After kv (putting u ∷ cs) (put_value codec v u ∷ vs) now
    begins :
        {cs : List (Call A)} {vs : List (Value A)} {now : Option Bytes} (allow : Bool)
        → After kv cs vs now
        → After kv (beginning allow ∷ cs) (new_value codec allow ∷ vs) now
    discards :
        {cs : List (Call A)} {v : Value A} {vs : List (Value A)} {now : Option Bytes}
        → After kv cs (v ∷ vs) now
        → After kv (discarding ∷ cs) vs now
    commits :
        {cs : List (Call A)} {v : Value A} {vs : List (Value A)} {now : Option Bytes}
        (ws : List (Value A)) (next : Option Bytes)
        → After kv cs (v ∷ vs) now
        → commit codec v vs now ≡ some (ws, next)
        → After kv (committing ∷ cs) ws next

  -- The write that a value has.
  own : Value A → Option A
  unfolding is_dirty
  own v = if is_dirty codec v then some v.value else none

  abbrev owns : List (Value A) → Written A
  owns [] = []
  owns (v ∷ vs) = (v.allow_missing, own v) ∷ owns vs

  -- Loading is no write.
  loaded-owns :
      (x : A) (allow : Bool) (r : Got A) (ws vs : List (Value A))
      → owns ws ≡ owns vs
      → owns
          (loaded codec (record { status = undefined; value = x; allow_missing = allow }) (r, ws)).1
        ≡ owns (record { status = undefined; value = x; allow_missing = allow } ∷ vs)
  unfolding loaded own is_dirty
  loaded-owns x allow (got y) ws vs e = ap (λ t. (allow, none) ∷ t) e
  loaded-owns x allow (failed s) ws vs e = ap (λ t. (allow, none) ∷ t) e
  loaded-owns x true missing ws vs e = ap (λ t. (true, none) ∷ t) e
  loaded-owns x false missing ws vs e = ap (λ t. (false, none) ∷ t) e

  get-owns_status :
      (s : Status) (x : A) (allow : Bool) (vs : List (Value A)) (kv : Option Bytes)
      → owns (get codec vs kv).1 ≡ owns vs
      → owns (get codec (record { status = s; value = x; allow_missing = allow } ∷ vs) kv).1
        ≡ owns (record { status = s; value = x; allow_missing = allow } ∷ vs)
  unfolding get
  get-owns_status undefined x allow vs kv e =
      loaded-owns x allow (get codec vs kv).0 (get codec vs kv).1 vs e
  get-owns_status not_found x allow vs kv e = refl
  get-owns_status clean x allow vs kv e = refl
  get-owns_status dirty x allow vs kv e = refl

  get-owns : (vs : List (Value A)) (kv : Option Bytes) → owns (get codec vs kv).1 ≡ owns vs
  unfolding get
  get-owns [] kv = refl
  get-owns (v ∷ vs) kv = get-owns_status v.status v.value v.allow_missing vs kv (get-owns vs kv)

  contents-readable :
      (vs : List (Value A)) (kv : Option Bytes) → contents codec vs kv ≡ readable (owns vs) kv
  unfolding contents readable own
  contents-readable [] kv = refl
  contents-readable (v ∷ vs) kv = elim (Bool-cases (is_dirty codec v)) [
    | inl t ↦ rw (contents, t, own) refl
    | inr f ↦ rw (contents, f, own) (ap (or_fresh codec v.allow_missing) (contents-readable vs kv))
  ]

  commit-owns :
      (v : Value A) (vs ws : List (Value A)) (now next : Option Bytes)
      → commit codec v vs now ≡ some (ws, next)
      → write_call committing (owns (v ∷ vs), now) ≡ (owns ws, next)
  unfolding commit write_call own hand_on is_dirty
  commit-owns v [] ws now next e = elim (Bool-cases (is_dirty codec v)) [
    | inl t ↦ elim (Option-cases (codec.marshal v.value)) [
      | inl n ↦ absurd (cc (rw (commit, t, n) at e))
      | inr (b, n) ↦
          some-subst
            (λ s. write_call committing ((v.allow_missing, own v) ∷ [], now) ≡ (owns s.0, s.1))
            (rw (commit, t, n) at e) (rw (own, t, n) refl)
    ]
    | inr f ↦
        some-subst
          (λ s. write_call committing ((v.allow_missing, own v) ∷ [], now) ≡ (owns s.0, s.1))
          (rw (commit, f) at e) (rw (own, f) refl)
  ]
  commit-owns v (p ∷ ps) ws now next e = elim (Bool-cases (is_dirty codec v)) [
    | inl t ↦
        some-subst
          (λ s.
            write_call committing ((v.allow_missing, own v) ∷ owns (p ∷ ps), now) ≡ (owns s.0, s.1))
          (rw (commit, t) at e) (rw (own, t) refl)
    | inr f ↦
        some-subst
          (λ s.
            write_call committing ((v.allow_missing, own v) ∷ owns (p ∷ ps), now) ≡ (owns s.0, s.1))
          (rw (commit, f) at e) (rw (own, f) refl)
  ]

  After-IsCoherent :
      {kv : Option Bytes} {cs : List (Call A)} {vs : List (Value A)} {now : Option Bytes}
      → After kv cs vs now
      → IsCoherent codec vs now
  unfolding IsCoherent IsGot
  After-IsCoherent start = tt
  After-IsCoherent (gets {vs = vs} {now = now} a) =
      (get-contents codec vs now (After-IsCoherent a)).1
  After-IsCoherent (puts u a) = (tt, (After-IsCoherent a).1)
  After-IsCoherent (begins allow a) = (tt, After-IsCoherent a)
  After-IsCoherent (discards a) = (After-IsCoherent a).1
  After-IsCoherent (commits {v = v} {vs = vs} {now = now} ws next a e) =
      commit-IsCoherent codec v vs ws now next (After-IsCoherent a).1 e

  After-written_by :
      {kv : Option Bytes} {cs : List (Call A)} {vs : List (Value A)} {now : Option Bytes}
      → After kv cs vs now
      → written_by cs kv ≡ (owns vs, now)
  unfolding written_by write_call own is_dirty
  After-written_by start = refl
  After-written_by (gets {vs = vs} {now = now} a) =
      After-written_by a ∙ ap (λ t. (t, now)) (sym (get-owns vs now))
  After-written_by (puts u a) = ap (write_call (putting u)) (After-written_by a)
  After-written_by (begins allow a) = ap (write_call (beginning allow)) (After-written_by a)
  After-written_by (discards a) = ap (write_call discarding) (After-written_by a)
  After-written_by (commits {v = v} {vs = vs} {now = now} ws next a e) =
      ap (write_call committing) (After-written_by a) ∙ commit-owns v vs ws now next e

  -- After any history of batches that begin, read, write, commit and are discarded one inside the other,
  -- in which every commit to the store marshals, Get returns what the history has written and not
  -- discarded, innermost first, or what is stored, whatever was loaded before; and the stored bytes are
  -- those of the last commit to the store.
  pub After-get :
      (kv : Option Bytes) (cs : List (Call A)) (vs : List (Value A)) (now : Option Bytes)
      → After kv cs vs now
      → ((get codec vs now).0 ≡ readable (written_by cs kv).0 (written_by cs kv).1)
        × (now ≡ (written_by cs kv).1)
  unfolding IsGot
  After-get kv cs vs now a =
      let e = After-written_by a in
      let (reads, coherent, same_) = get-contents codec vs now (After-IsCoherent a) in
      (reads ∙ contents-readable vs now ∙ ap (λ s. readable s.0 s.1) (sym e), ap (λ s. s.1) (sym e))
