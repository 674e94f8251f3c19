-- ===== src/Backups/Outside.antt =====
-- python/apexquant-backup-recovery/src/apexquant-backup-recovery/service.py
-- What the service is constructed with, and its operations as state passing: an exception ends an
-- operation, and keeps what was done before it.
use lord_hermes.Common.{ℕ, Bool, true, false, List, Option, none, some, Outcome, ok, err}
use lord_hermes.Common.Text.{Text}
use lord_hermes.Backups.Models.{BackupError}
use lord_hermes.Backups.Repository.{BackupRepository}

-- The storage, the runner of commands and the files, over a world that they change; the
-- environment's name, the working directory, and os.environ.
pub record Outside (World : Type 0) : Type 0 where
  pub environment : Text
  pub workdir : Text
  pub environ : Text → Option Text
  pub run : List Text → Option ℕ → World → Outcome BackupError (Unit {0}) × World
  pub sha256_file : Text → World → Outcome BackupError Text
  pub file_size : Text → World → ℕ
  pub upload_file : Text → Text → World → Outcome BackupError Text × World
  pub download_file : Text → Text → World → Outcome BackupError (Unit {0}) × World
  pub delete_object : Text → World → Outcome BackupError (Unit {0}) × World
  -- str(exc)
  pub message : BackupError → Text

pub record State (World : Type 0) : Type 0 where
  pub repository : BackupRepository
  pub world : World

abbrev pub Action : Type 0 → Type 0 → Type 0
Action World A = State World → Outcome BackupError A × State World

infixl 5 ◌>>=◌ ◌>>◌
abbrev pub ◌>>=◌ : {World A B : Type 0} → Action World A → (A → Action World B) → Action World B
◌>>=◌ m f s = let (result, after) = m s in elim result [ ok a ↦ f a after | err e ↦ (err e, after) ]

abbrev pub ◌>>◌ : {World B : Type 0} → Action World (Unit {0}) → Action World B → Action World B
m >> k = m >>= λ _. k

abbrev pub return : {World A : Type 0} → A → Action World A
return a s = (ok a, s)

abbrev pub raise : {World A : Type 0} → BackupError → Action World A
raise e s = (err e, s)

abbrev pub lift : {World A : Type 0} → Outcome BackupError A → Action World A
lift m s = (m, s)

-- `if not test: raise e`
abbrev pub unless : {World : Type 0} → Bool → BackupError → Action World (Unit {0})
unless true e s = (ok tt, s)
unless false e s = (err e, s)

-- `x = ...; if x is None: raise e`
abbrev pub some_or : {World A : Type 0} → BackupError → Option A → Action World A
some_or e none s = (err e, s)
some_or e (some a) s = (ok a, s)

-- try: body, except Exception as exc: handler
abbrev pub attempt :
    {World A : Type 0} → Action World A → (BackupError → Action World A) → Action World A
attempt body handler s =
    let (result, after) = body s in elim result [ ok a ↦ (ok a, after) | err e ↦ handler e after ]

-- A read of the repository.
abbrev pub read : {World A : Type 0} → (BackupRepository → A) → Action World A
read f s = (ok (f s.repository), s)

-- A write of the repository that returns a value, and one that may raise.
abbrev pub write : {World A : Type 0} → (BackupRepository → A × BackupRepository) → Action World A
write f s = let (a, repository) = f s.repository in (ok a, record s { repository = repository })

abbrev pub change :
    {World : Type 0}
    → (BackupRepository → Outcome BackupError BackupRepository)
    → Action World (Unit {0})
change f s = elim (f s.repository) [
  | ok repository ↦ (ok tt, record s { repository = repository })
  | err e ↦ (err e, s)
]

-- A call on the world.
abbrev pub perform : {World A : Type 0} → (World → Outcome BackupError A × World) → Action World A
perform f s = let (result, world) = f s.world in (result, record s { world = world })

abbrev pub observe : {World A : Type 0} → (World → Outcome BackupError A) → Action World A
observe f s = (f s.world, s)
