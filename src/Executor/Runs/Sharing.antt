-- ===== src/Executor/Runs/Sharing.antt =====
-- The secrets of a run and of those that it starts.
use agent_d.Base.{ℕ, ◌≡◌, refl, sym, ap, ◌∙◌, false, List, [], some}
use agent_d.Base.Text.{Str, str_eq, str_eq_refl}
use agent_d.Base.Keys.{str_key, nat_key}
use agent_d.Base.Maps.{Map, get, insert, get-insert}
use agent_d.Executor.Runs.{Runs, RunRecord, parent_of, start, record_secret, secrets, shelf}
use agent_d.Executor.Runs.Allows.{record_secret-records}

secrets_of_record :
    (id : Str) (s : Runs) (r : RunRecord)
    → get id s.records ≡ some r
    → secrets (some id) s ≡ shelf r.secrets s
unfolding secrets
secrets_of_record id s r e = rw (e, secrets) refl

start_nested :
    (id p : Str) (said : List Str) (s : Runs) (r : RunRecord)
    → get p s.records ≡ some r
    → start id (some p) said s ≡ record s {
      records =
          insert id
            (record { allows = []; secrets = r.secrets; user_said = r.user_said })
            s.records;
    }
unfolding start parent_of
start_nested id p said s r e = rw (e, start) refl

shelf_same :
    (a : ℕ) (s : Runs) (l : Map Str RunRecord) → shelf a (record s { records = l }) ≡ shelf a s
unfolding shelf
shelf_same a s l = refl

-- A run that another in flight started has the other's secrets, and a secret that any run reads
-- from then on is read by both of them or by neither.
start-shares :
    (id p i n v : Str) (said : List Str) (s : Runs) (r : RunRecord)
    → get p s.records ≡ some r
    → str_eq id p ≡ false
    → (secrets (some id) (start id (some p) said s) ≡ secrets (some p) s)
      × (secrets (some id) (record_secret i n v (start id (some p) said s))
          ≡ secrets (some p) (record_secret i n v (start id (some p) said s)))
start-shares id p i n v said s r e d =
    let r' : RunRecord = record { allows = []; secrets = r.secrets; user_said = r.user_said } in
    let t : Runs = record s { records = insert id r' s.records } in
    let own : get id t.records ≡ some r' =
      rw (get-insert id id r' s.records, str_eq_refl id) refl in
    let other : get p t.records ≡ some r = rw (get-insert id p r' s.records, d) e in
    let same = record_secret-records i n v t in
    rw (start_nested id p said s r e) (
      secrets_of_record id t r' own
          ∙ shelf_same r.secrets s t.records
          ∙ sym (secrets_of_record p s r e),
      secrets_of_record id _ r' (ap (get id) same ∙ own)
          ∙ sym (secrets_of_record p _ r (ap (get p) same ∙ other)),
    )
