-- ===== src/Daemon/Store/Files.antt =====
-- What crates/matrix-daemon/src/config.rs uses of the file system, of tempfile and of serde_json. `W`
-- is the state of the disk; each operation says whether it succeeded.
use fw16_ledmatrix.Base.{ℕ, ◌≡◌, ◌≢◌, ◌++◌, Bool, true, Option, some, List, [], Text}
use fw16_ledmatrix.Core.Config.{SavedConfig}

pub data Content : Type 0 where
  found : List ℕ → Content
  not_found : Content
  unreadable : Content

pub record Files (W : Type 0) : Type 1 where
  pub Temporary : Type 0
  pub read : Text → W → Content
  -- `Path::parent`.
  pub parent : Text → Option Text
  pub create_directory : Text → W → Bool × W
  pub new_temporary : Text → W → Option Temporary × W
  pub write_all : Temporary → List ℕ → W → Bool × W
  pub sync_all : Temporary → W → Bool × W
  -- `NamedTempFile::persist`: rename over the target.
  pub rename : Temporary → Text → W → Bool × W
  -- `serde_json::to_vec_pretty` and `from_slice` for a saved configuration.
  pub encode : SavedConfig → Option (List ℕ)
  pub decode : List ℕ → Option SavedConfig

-- Documented behaviour of those operations. A temporary file has a place where nothing was found, what is
-- at other places stays while it is written, and a rename puts the written bytes in place, or leaves
-- every other place alone.
pub record IsFaithful {W : Type 0} (fs : Files W) : Type 0 where
  pub contents : fs.Temporary → W → List ℕ
  pub place : fs.Temporary → Text
  pub create_directory_keeps :
      (p q : Text) (w : W) {b : List ℕ}
      → fs.read q w ≡ found b
      → fs.read q (fs.create_directory p w).1 ≡ found b
  pub new_temporary_new :
      (p q : Text) (w : W) {b : List ℕ} {t : fs.Temporary}
      → (fs.new_temporary p w).0 ≡ some t
      → fs.read q w ≡ found b
      → q ≢ place t
  pub new_temporary_keeps :
      (p q : Text) (w : W) {b : List ℕ}
      → fs.read q w ≡ found b
      → fs.read q (fs.new_temporary p w).1 ≡ found b
  pub write_all_keeps :
      (t : fs.Temporary) (c : List ℕ) (q : Text) (w : W) {b : List ℕ}
      → q ≢ place t
      → fs.read q w ≡ found b
      → fs.read q (fs.write_all t c w).1 ≡ found b
  pub sync_all_keeps :
      (t : fs.Temporary) (q : Text) (w : W) {b : List ℕ}
      → q ≢ place t
      → fs.read q w ≡ found b
      → fs.read q (fs.sync_all t w).1 ≡ found b
  pub rename_keeps :
      (t : fs.Temporary) (p q : Text) (w : W) {b : List ℕ}
      → q ≢ place t
      → (fs.rename t p w).0 ≢ true
      → fs.read q w ≡ found b
      → fs.read q (fs.rename t p w).1 ≡ found b
  pub new_temporary_empty :
      (p : Text) (w : W) {t : fs.Temporary}
      → (fs.new_temporary p w).0 ≡ some t
      → contents t (fs.new_temporary p w).1 ≡ []
  pub write_all_appends :
      (t : fs.Temporary) (c : List ℕ) (w : W)
      → (fs.write_all t c w).0 ≡ true
      → contents t (fs.write_all t c w).1 ≡ contents t w ++ c
  pub sync_all_contents : (t : fs.Temporary) (w : W) → contents t (fs.sync_all t w).1 ≡ contents t w
  pub rename_reads :
      (t : fs.Temporary) (p : Text) (w : W)
      → (fs.rename t p w).0 ≡ true
      → fs.read p (fs.rename t p w).1 ≡ found (contents t w)
  pub decode-encode : (s : SavedConfig) {b : List ℕ} → fs.encode s ≡ some b → fs.decode b ≡ some s
