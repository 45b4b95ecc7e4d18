-- ===== src/Api.antt =====
-- The handlers of src/api.rs that change the lists, the rewrites and the upstreams, and what they share.
-- A handler runs its database call in a blocking task; one that dies is an error, as one that fails.
pub mod Lists
pub mod Records
pub mod Requests
pub mod Laws
use rustblocker.Base.{ℕ, Bool, true, Option, none, some, Bytes}
use rustblocker.Database.Refresh.{Weather}
use rustblocker.Database.Tables.{Reads, DbSource}
use rustblocker.Database.Sources.{Cleanup}
use rustblocker.Sync.Apply.{ApplyWeather}

-- The status of an answer, with what its body reports.
pub data Response : Type 0 where
  forbidden bad_request server_error not_found changed : Response
  created imported refreshed_all : ℕ → Response

-- How the calls of one request end: whether its task runs, and its statements succeed and commit; how
-- the single statements of a deletion do, and the readings of a table, of one source, and of each row
-- of the sources; the id that the connection inserted last; the content that
-- an import comes to; the calls of a reload, and of the refresh of each source.
pub record ApiWeather : Type 0 where
  pub runs : Bool
  pub commits : Bool
  pub deletes : Bool
  pub forgets : Bool
  pub cleanup : Cleanup
  pub reads : Reads
  pub selects : Bool
  pub row_reads : DbSource → Bool
  pub last_id : ℕ
  pub content : Option Bytes
  pub reload : ApplyWeather
  pub refresh : ℕ → Weather

-- The access list allows the address of the peer, or there is none.
unfoldable pub check_acl : (ℕ → Bool) → Option ℕ → Bool
check_acl allows none = true
check_acl allows (some addr) = allows addr
