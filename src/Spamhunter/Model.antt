-- ===== src/Spamhunter/Model.antt =====
-- spamhunter/pubkey_iterator/src/model.rs, and the rows and the tables of store/schema.rs.
-- `F` is the type of the floats that are not NaN; a string that is only stored or compared is its bytes.
use Prim.Native.String.{String}
use deepfry.Base.{ℕ, Bool, Option, List}
use deepfry.Base.Ints.{ℤ}
use deepfry.Base.Words.{Bytes}

pub record Run : Type 0 where
  pub run_id : ℕ
  pub started_at : ℕ
  pub finished_at : Option ℕ
  pub max_lev_id_start : Option ℤ
  pub max_lev_id_end : Option ℤ
  pub last_cursor : Option Bytes
  pub config_json : Bytes
  pub status : String

pub record Score (F : Type 0) : Type 0 where
  pub run_id : ℕ
  pub pubkey : Bytes
  pub score : F
  pub whitelisted : Bool
  pub suspected : Bool

-- An f64. A NaN is none: a statement binds it as NULL.
abbrev pub F64 : Type 0 → Type 0
F64 F = Option F

pub record SubScore (F : Type 0) : Type 0 where
  pub layer : Bytes
  pub value : F64 F
  pub evidence : Option Bytes

pub record Fingerprint : Type 0 where
  pub run_id : ℕ
  pub pubkey : Bytes
  pub content_hash : ℤ
  pub simhash : ℤ
  pub minhash : Option Bytes

pub record Persist (F : Type 0) : Type 0 where
  pub run_id : ℕ
  pub pubkey : Bytes
  pub score : F64 F
  pub whitelisted : Bool
  pub suspected : Bool
  pub subscores : List (SubScore F)

-- `flush` stands for the message with the sender of its acknowledgement.
pub data WriteMsg (F : Type 0) : Type 0 where
  score : Persist F → WriteMsg F
  pubkeys : List Bytes → WriteMsg F
  fingerprints : List Fingerprint → WriteMsg F
  flush : WriteMsg F

-- A row of the table `signal`.
pub record Signal (F : Type 0) : Type 0 where
  pub run_id : ℕ
  pub pubkey : Bytes
  pub layer : Bytes
  pub value : F
  pub evidence : Option Bytes

-- The tables that are written here, each in the order of the first insertion, and `sequence`, the
-- largest `run_id` that AUTOINCREMENT has given.
pub record Tables (F : Type 0) : Type 0 where
  pub sequence : ℕ
  pub run : List Run
  pub pubkey : List Bytes
  pub score : List (Score F)
  pub signal : List (Signal F)
  pub fingerprint : List Fingerprint

pub record Weight (F : Type 0) : Type 0 where
  pub layer : Bytes
  pub weight : F
  pub threshold : Option F
  pub tuned_at : Option ℕ
  pub tuned_from_run : Option ℕ
