-- ===== src/Database/Laws/Checks.antt =====
-- Runs of the database on inputs like those of the tests of src/db.rs, and the theorems at concrete
-- tables. The hash is the length of the text.
use rustblocker.Base.{
  trim, trim_start, trim_end, starts_with, ℕ, ◌≡◌, refl, true, false, none, some, [], ◌∷◌, Bytes,
  codes, arith, length, bytes_eq, strip_prefix,
}
use rustblocker.Domain.{
  lines, parse_domain_line, valid_name, wildcard_base, is_label, all_labels, all_bytes, split_dots,
  trim_dots, normalize_domain, ends_with_dot, drop_last,
}
use rustblocker.Store.{empty_store}
use rustblocker.Store.Laws.Model.{Represents, empty_store-Represents}
use rustblocker.Database.Tables.{
  insert_owned, insert_domain, allowlist, blocklist, list_of, DbDomain, DbSource, Database,
  has_domain, Reads, load_domain_store,
}
use rustblocker.Database.Sources.{
  parsed_lines, sort, insert_sorted, bytes_le, dedup, dedup_after, insert_all, own_all, set_status,
  parse_source_domains, replaced, replace_found, replace_source_domains, delete_source_with_cleanup,
  Cleanup, source_by_id, without_source, prune,
}
use rustblocker.Database.Refresh.{Runtime, Weather, refresh_source, refresh_fetched, finish_refresh}
use rustblocker.Database.Laws.Load.{row_names, read_rows, load_domain_store-Represents}
use rustblocker.Database.Laws.Parse.{IsParse, parse_source_domains-IsParse}
use rustblocker.Database.Laws.Replace.{IsRefresh, replace_source_domains-IsRefresh}
use rustblocker.Database.Laws.Delete.{IsDeletion, delete_source_with_cleanup-IsDeletion}
use rustblocker.Database.Laws.Shown.{IsShown, refresh_source-IsShown}
use rustblocker.Database.Laws.Refreshed.{IsRefreshed, refresh_source-IsRefreshed}

abbrev by_length : Bytes → ℕ
by_length d = length d

abbrev block_source : DbSource
block_source = record {
  id = 1;
  url = codes "https://lists.test/block";
  list_type = codes "blocklist";
  enabled = true;
  update_interval_hours = 24;
  last_updated = none;
  last_status = none;
}

abbrev allow_source : DbSource
allow_source = record {
  id = 2;
  url = codes "https://lists.test/allow";
  list_type = codes "allowlist";
  enabled = true;
  update_interval_hours = 24;
  last_updated = none;
  last_status = none;
}

-- Every read and every statement succeeds.
abbrev all_read : Reads
all_read = record { opens = true; row_reads = λ r. true }

abbrev all_pruned : Cleanup
all_pruned = record { leftover = λ d. false; notes = λ d. true; prunes = true }

abbrev row : ℕ → Bytes → DbDomain
row id d = record { id = id; domain = d }

-- Both sources own the same domain, each in its list.
abbrev tables : Database
tables = record {
  settings =
      (codes "admin_password_hash", codes "old-hash")
      ∷ (codes "session_secret", codes "secret")
      ∷ (codes "log_level", codes "info")
      ∷ [];
  upstreams = [];
  next_upstream = 1;
  rewrites = [];
  next_rewrite = 1;
  blocklist_domains = record {
    rows = row 1 (codes "ads.test") ∷ row 2 (codes "*.bad.test") ∷ [];
    next_id = 3;
  };
  allowlist_domains = record { rows = row 1 (codes "ads.test") ∷ []; next_id = 2 };
  sources = block_source ∷ allow_source ∷ [];
  next_source = 3;
  source_domains = (1, codes "ads.test") ∷ (2, codes "ads.test") ∷ [];
  manual_domains = (blocklist, codes "*.bad.test") ∷ [];
}

-- Ten domains, one of them twice, and lines without any.
abbrev ten_lines : Bytes
ten_lines =
    codes
      "# list\nb.test\na.test\nb.test\n0.0.0.0 c.test\nd.test\ne.test\nf.test\ng.test\nh.test\ni.test\nj.test\n"

parse_source_domains-IsParse_example : IsParse ten_lines (parse_source_domains ten_lines)
parse_source_domains-IsParse_example = parse_source_domains-IsParse ten_lines

replace_source_domains-IsRefresh_example :
    IsRefresh by_length all_read tables 1 blocklist ten_lines 5
      (replace_source_domains by_length all_read true true tables 1 blocklist ten_lines 5)
replace_source_domains-IsRefresh_example =
    replace_source_domains-IsRefresh by_length all_read tables 1 blocklist ten_lines 5 true true

delete_source_with_cleanup-IsDeletion_example :
    IsDeletion all_pruned tables 1 by_length all_read true
      (delete_source_with_cleanup by_length all_read all_pruned true tables 1)
delete_source_with_cleanup-IsDeletion_example =
    delete_source_with_cleanup-IsDeletion all_pruned tables 1 by_length all_read true

load_domain_store-Represents_example :
    Represents by_length
      (load_domain_store by_length all_read blocklist tables)
      (row_names (read_rows all_read tables.blocklist_domains.rows))
unfolding normalize_domain ends_with_dot drop_last strip_prefix
load_domain_store-Represents_example =
    load_domain_store-Represents by_length all_read blocklist tables (omega arith)

abbrev runtime : Runtime
runtime = record { db = tables; block_store = empty_store; allow_store = empty_store }

abbrev fair : Weather
fair = record {
  fetched = some ten_lines;
  runs = true;
  connects = true;
  commits = true;
  reads = all_read;
  notes = true;
  now = 5;
}

refresh_source-IsRefreshed_example :
    IsRefreshed by_length fair runtime block_source
      (refresh_source by_length fair runtime block_source)
refresh_source-IsRefreshed_example = refresh_source-IsRefreshed by_length fair runtime block_source

-- The domain stays blocked after the deletion of the only source that put it on the blocklist, since
-- a source of the allowlist owns it too.
orphan_stays :
    has_domain
      (codes "ads.test")
      (delete_source_with_cleanup by_length all_read all_pruned true tables
        1).0.blocklist_domains.rows
    ≡ true
unfolding delete_source_with_cleanup source_by_id without_source list_of bytes_eq prune
orphan_stays = refl

-- A start without rows.
abbrev empty_tables : Database
empty_tables = record {
  settings = [];
  upstreams = [];
  next_upstream = 1;
  rewrites = [];
  next_rewrite = 1;
  blocklist_domains = record { rows = []; next_id = 1 };
  allowlist_domains = record { rows = []; next_id = 1 };
  sources = block_source ∷ [];
  next_source = 2;
  source_domains = [];
  manual_domains = [];
}

abbrev start : Runtime
start = record { db = empty_tables; block_store = empty_store; allow_store = empty_store }

start-IsShown : IsShown by_length start
start-IsShown blocklist = empty_store-Represents by_length
start-IsShown allowlist = empty_store-Represents by_length

abbrev afterwards : Runtime
afterwards = (refresh_source by_length fair start block_source).0

refresh_source-IsShown_example : IsShown by_length afterwards
unfolding refresh_source refresh_fetched finish_refresh replace_source_domains replace_found
    replaced parse_source_domains parsed_lines lines parse_domain_line valid_name wildcard_base
    is_label all_labels all_bytes split_dots trim_dots normalize_domain ends_with_dot drop_last trim
    trim_start trim_end starts_with strip_prefix sort insert_sorted bytes_le dedup dedup_after
    insert_all insert_domain own_all insert_owned prune set_status list_of bytes_eq
refresh_source-IsShown_example =
    refresh_source-IsShown by_length fair start block_source refl (λ d. refl) start-IsShown
      (omega arith)
