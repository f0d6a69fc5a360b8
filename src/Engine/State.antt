-- ===== src/Engine/State.antt =====
-- The world of one run of the engine, and the monad over it: an error keeps the world it is met in.
use codex_sync.Base.{String, Bool, Option, none, some, List, Dict, Result, ok, err}
use codex_sync.Models.{Side}

-- How a call of the operating system ends: as asked, with an error, with an error that another
-- process holds the target for the moment, with another content, or with that and an error.
pub data Outcome : Type 0 where
  works raises locked : Outcome
  writes breaks : String → Outcome

pub data EngineError : Type 0 where
  os_error fail_safe refused : EngineError

-- An entry of the snapshot's manifest, with the content that is stored for it.
pub record BackupEntry : Type 0 where
  pub relative_path : String
  pub side : Side
  pub content : String

-- The files of both sides by their paths, the stage files by their destinations, the backup snapshot
-- and whether its manifest is written, the outcomes to come, and the state of the hooks.
pub record World {ℓ} (J : Type ℓ) : Type ℓ where
  pub files : Dict String
  pub staged : Dict String
  pub saved : List BackupEntry
  pub stamped : Bool
  pub outcomes : List Outcome
  pub hooks : J

abbrev pub M {ℓ κ} : Type ℓ → Type κ → Type (ℓ ⊔ κ)
M J A = World J → Result EngineError A × World J

module _ {ℓ} {J : Type ℓ} where
  abbrev pub pure {κ} : {A : Type κ} → A → M J A
  pure a w = (ok a, w)

  abbrev pub fail {κ} : {A : Type κ} → EngineError → M J A
  fail e w = (err e, w)

  abbrev pub after {κ λ'} :
      {A : Type κ} {B : Type λ'}
      → (A → M J B)
      → Result EngineError A × World J
      → Result EngineError B × World J
  after f (ok a, w) = f a w
  after f (err e, w) = (err e, w)

  infixl 5 ◌>>=◌ ◌>>◌
  abbrev pub ◌>>=◌ {κ λ'} : {A : Type κ} {B : Type λ'} → M J A → (A → M J B) → M J B
  ◌>>=◌ m f w = after f (m w)

  abbrev pub ◌>>◌ {κ} : {B : Type κ} → M J (Unit {0}) → M J B → M J B
  m >> k = m >>= λ _. k

-- A callable that may raise and change what it holds.
abbrev pub Hook {ℓ} : Type ℓ → Type ℓ
Hook J = J → Result EngineError (Unit {0}) × J

-- `if self._check is not None: self._check()`
abbrev pub call {ℓ} : {J : Type ℓ} → Option (Hook J) → M J (Unit {0})
call none w = (ok tt, w)
call (some hook) w =
    let (r, j) : Result EngineError (Unit {0}) × _ = hook w.hooks in (r, record w { hooks = j })
