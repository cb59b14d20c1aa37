-- ===== src/Persist/Log.antt =====
-- The lines of the append-only file and their replay: internal/persist/engine.go.
use cache_custom.Prelude.{
  ℕ, ◌+◌, ◌-◌, Bool, true, false, Option, none, some, List, [], ◌∷◌, ltb, if◌then◌else◌, ite,
}
use cache_custom.Prelude.Int.{ℤ, pos, pos_part, is_pos}
use cache_custom.Bytes.{Bytes, codes, dec_bytes}
use cache_custom.Numbers.{wrap64}
use cache_custom.Dict
use cache_custom.Dict.{Dict}
use cache_custom.Tenant.{is_empty_text}
use cache_custom.Store.{Db, Mutation, set_op, del_op, expire_op, persist_op, flush_op}
use cache_custom.Store.Write.{
  SetOptions, no_options, SetReply, done, refused, err_oom, fuel, set, del,
}
use cache_custom.Store.Expiry.{expire, persist}
use cache_custom.Store.Snapshot.{flush_db}

-- `exp` is the `int64` of nanoseconds since 1970, and 0 where there is no deadline.
pub record AofLine : Type 0 where
  pub op : Bytes
  pub tenant : Bytes
  pub key : Bytes
  pub value : Bytes
  pub keys : List Bytes
  pub exp : ℤ

-- `UnixNano`: a time after 2262 wraps.
unfoldable pub unix_nano : Option ℕ → ℤ
unfolding wrap64
unix_nano none = pos 0
unix_nano (some t) = wrap64 (pos t)

unfoldable pub set_line : Bytes → Bytes → Bytes → Option ℕ → AofLine
unfolding unix_nano
set_line t k v e = record {
  op = codes "SET";
  tenant = t;
  key = k;
  value = v;
  keys = [];
  exp = unix_nano e;
}

unfoldable pub line_of : Bytes → Mutation → AofLine
unfolding set_line unix_nano
line_of t (set_op k v e) = set_line t k v e
line_of t (del_op ks) = record {
  op = codes "DEL";
  tenant = t;
  key = [];
  value = [];
  keys = ks;
  exp = pos 0;
}
line_of t (expire_op k e) = record {
  op = codes "EXPIRE";
  tenant = t;
  key = k;
  value = [];
  keys = [];
  exp = unix_nano (some e);
}
line_of t (persist_op k) = record {
  op = codes "PERSIST";
  tenant = t;
  key = k;
  value = [];
  keys = [];
  exp = pos 0;
}
line_of t flush_op = record {
  op = codes "FLUSHDB";
  tenant = t;
  key = [];
  value = [];
  keys = [];
  exp = pos 0;
}

-- `no_file` is an error that `os.IsNotExist` knows, `crashed` is the end of the process by a panic,
-- and `load_fuel` is no outcome of the program.
pub data LoadError : Type 0 where
  no_file bad_header bad_magic bad_version bad_body bad_checksum bad_json : LoadError
  corrupt_line unknown_op unreadable load_oom load_fuel crashed : LoadError

unfoldable pub set_error : SetReply × Db → Option LoadError × Db
set_error (done, db) = (none, db)
set_error (refused, db) = (none, db)
set_error (err_oom, db) = (some load_oom, db)
set_error (fuel, db) = (some load_fuel, db)

abbrev pub aof_options : AofLine → SetOptions
aof_options l =
    if is_pos l.exp
    then record no_options { has_expire_at = true; expire_at = some (pos_part l.exp) }
    else no_options

-- The keys that a DEL line names.
abbrev pub named : AofLine → List Bytes
named l = elim l.keys [ [] ↦ if is_empty_text l.key then [] else l.key ∷ [] | k ∷ ks ↦ k ∷ ks ]

module _ (intn : ℕ → ℕ → ℕ) where
  -- The clock is read at `now` by `time.Until`, and then at `now'`.
  unfoldable pub apply_expire : ℕ → ℕ → AofLine → Db → Db
  unfolding expire del
  apply_expire now now' l db =
      if is_pos l.exp
      then (if ltb now (pos_part l.exp)
          then (expire now' now' l.key (pos (pos_part l.exp - now)) db).1
          else (del now' (l.key ∷ []) db).1)
      else db

  unfoldable pub apply_del : ℕ → AofLine → Db → Db
  unfolding del
  apply_del now l db = elim (named l) [ [] ↦ db | k ∷ ks ↦ (del now (k ∷ ks) db).1 ]

  unfoldable pub apply_aof : ℕ → ℕ → AofLine → Db → Option LoadError × Db
  unfolding set_error set apply_del apply_expire persist flush_db dec_bytes
  apply_aof now now' l db =
      ite (dec_bytes l.op (codes "SET"))
        (set_error (set intn now' l.key l.value (aof_options l) db))
        (ite (dec_bytes l.op (codes "DEL")) (none, apply_del now' l db)
          (ite (dec_bytes l.op (codes "EXPIRE")) (none, apply_expire now now' l db)
            (ite (dec_bytes l.op (codes "PERSIST")) (none, (persist now' l.key db).1)
              (ite (dec_bytes l.op (codes "FLUSHDB")) (none, (flush_db db).1)
                (some unknown_op, db)))))

  -- On the keyspaces by the names of their tenants; a line of an unknown tenant is passed over.
  unfoldable pub apply_to : ℕ → ℕ → AofLine → Dict Db → Option LoadError × Dict Db
  unfolding apply_aof Dict.lookup Dict.insert
  apply_to now now' l dbs = elim (Dict.lookup l.tenant dbs) [
    | none ↦ (none, dbs)
    | some db ↦ let (e, db') = apply_aof now now' l db in (e, Dict.insert l.tenant db' dbs)
  ]

  module _ (clock : ℕ → ℕ) (decode : Bytes → Option AofLine)
      (scan : Bytes → List Bytes × Bool) where
    -- `clock n` is the time of the reading with the number `n`, and `decode` is `json.Unmarshal`.
    unfoldable pub load_line : ℕ → Bytes → Dict Db → Option LoadError × Dict Db
    unfolding apply_to
    load_line n [] dbs = (none, dbs)
    load_line n (c ∷ cs) dbs = elim (decode (c ∷ cs)) [
      | none ↦ (some corrupt_line, dbs)
      | some l ↦ apply_to (clock n) (clock (n + 1)) l dbs
    ]

    unfoldable pub load_lines : ℕ → List Bytes → Dict Db → Option LoadError × Dict Db
    unfolding load_line
    load_lines n [] dbs = (none, dbs)
    load_lines n (b ∷ bs) dbs =
        let (e, dbs') = load_line n b dbs in
        let rest = load_lines (n + 2) bs dbs' in elim e [ none ↦ rest | some x ↦ (some x, dbs') ]

    -- `scan` is `bufio.Scanner`: the lines, and whether the end was reached without an error.
    unfoldable pub scanned : Bool → Option LoadError × Dict Db → Option LoadError × Dict Db
    scanned ok (some x, dbs) = (some x, dbs)
    scanned true (none, dbs) = (none, dbs)
    scanned false (none, dbs) = (some unreadable, dbs)

    unfoldable pub load_aof : ℕ → Option Bytes → Dict Db → Option LoadError × Dict Db
    unfolding load_lines scanned
    load_aof n none dbs = (some no_file, dbs)
    load_aof n (some file) dbs = let (bs, ok) = scan file in scanned ok (load_lines n bs dbs)
