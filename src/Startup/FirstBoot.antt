-- ===== src/Startup/FirstBoot.antt =====
-- What has happened when the process begins to listen, and the first-boot migration.
use livepeer_gateway_console.Common.{
  ℕ, ◌+◌, ◌≡◌, ◌≤◌, ◌↔◌, refl, ap, Bool, true, false, Option, none, some, List, [], ◌∷◌, keep,
  length, ◌==◌, if◌then◌else◌, arith, Bool-cases, inl, inr,
}
use livepeer_gateway_console.Common.Text.{Text, codes, text_eq, text_eq→eq, utf16_length}
use livepeer_gateway_console.Common.Address.{is_eth_address}
use livepeer_gateway_console.Common.Assoc.{map_get}
use livepeer_gateway_console.Dedupe.{includes}
use livepeer_gateway_console.Dedupe.Sorted.{IsDistinct}
use livepeer_gateway_console.Common.Result.{Result, ok, err, bind_ok, ok-injective}
use livepeer_gateway_console.Config.{Env, ListenConfig, load_env, parse_listen_addr}
use livepeer_gateway_console.Config.Bounds.{load_env_sound}
use livepeer_gateway_console.Config.ListenAddr.{listen_addr_sound}
use livepeer_gateway_console.Startup.{
  RawDatabase, MigrationFiles, Wiring, Surroundings, is_ours, has_schema, run_script,
  find_migration, apply_bootstrap_migration_if_needed, wire, serve_over, boot_with, boot,
}

-- Both tables are there.
pub record HasTables (tables : List Text) : Type 0 where
  pub has_events : includes tables (codes "audit_events") ≡ true
  pub has_observations : includes tables (codes "routing_observations") ≡ true

abbrev events : Text
events = codes "audit_events"

abbrev observations : Text
observations = codes "routing_observations"

abbrev bit : Bool → ℕ
bit b = if b then 1 else 0

differ : text_eq events observations ≡ false
differ = refl

-- Of distinct names the query finds as many as there are tables of ours.
count_ours :
    (ts : List Text)
    → IsDistinct ts
    → length (keep is_ours ts) ≡ bit (includes ts events) + bit (includes ts observations)
unfolding includes is_ours
count_ours [] d = refl
count_ours (t ∷ ts) (fresh, d) =
    let rest = count_ours ts d in
    elim (Bool-cases (text_eq t events)) [
      | inl event ↦
          let e : t ≡ events = text_eq→eq t events event in
          let once : includes ts events ≡ false = rw e at fresh in
          let apart : text_eq t observations ≡ false = rw e differ in
          let ours : length (keep is_ours ts) ≡ 0 + bit (includes ts observations) =
            rw once at rest in
          rw (event, apart) (omega (arith, ours))
      | inr other ↦ elim (Bool-cases (text_eq t observations)) [
        | inl observation ↦
            let once : includes ts observations ≡ false =
              rw (text_eq→eq t observations observation) at fresh in
            let ours : length (keep is_ours ts) ≡ bit (includes ts events) + 0 = rw once at rest in
            rw (other, observation) (omega (arith, ours))
        | inr neither ↦ rw (other, neither) rest
      ]
    ]

two_iff : (n : ℕ) (a b : Bool) → n ≡ bit a + bit b → (n == 2 ≡ true) ↔ ((a ≡ true) × (b ≡ true))
two_iff n true true h = (λ e. (refl, refl), λ k. ground arith)
two_iff n true false h = (λ e. ground arith, λ (p, q). absurd (cc))
two_iff n false true h = (λ e. ground arith, λ (p, q). absurd (cc))
two_iff n false false h = (λ e. ground arith, λ (p, q). absurd (cc))

has_schema_iff :
    {S : Type 0} (raw : RawDatabase S) (state : S)
    → IsDistinct (raw.tables state)
    → (has_schema raw state ≡ true) ↔ HasTables (raw.tables state)
unfolding has_schema
has_schema_iff raw state d =
    let names = raw.tables state in
    let both =
      two_iff (length (keep is_ours names)) (includes names events) (includes names observations)
        (count_ours names d) in
    (
      λ h. let (p, q) = both.0 h in record { has_events = p; has_observations = q },
      λ k. both.1 (k.has_events, k.has_observations),
    )

module _ {S : Type 0} where
  -- Where the migration's script runs through, both tables are there.
  unfoldable pub CreatesTables : RawDatabase S → MigrationFiles → Type 0
  CreatesTables raw files =
      (sql : Text) (state after : S)
      → find_migration files ≡ ok sql
      → raw.exec sql state ≡ (ok tt, after)
      → HasTables (raw.tables after)

  -- The names of the tables of a database are distinct.
  unfoldable pub NamesApart : RawDatabase S → Type 0
  NamesApart raw = (state : S) → IsDistinct (raw.tables state)

  run_script-tables :
      (raw : RawDatabase S) (files : MigrationFiles) (state after : S) (script : Result Text)
      → CreatesTables raw files
      → find_migration files ≡ script
      → run_script raw state script ≡ (ok tt, after)
      → HasTables (raw.tables after)
  unfolding run_script CreatesTables
  run_script-tables raw files state after (err e) creates found h = absurd (cc)
  run_script-tables raw files state after (ok sql) creates found h = creates sql state after found h

  -- A database that passes through the migration has both tables, whichever it had before, and passes
  -- through it unchanged at every later start; while the names of its tables are distinct and a run
  -- of the script that is found creates both or fails.
  pub migrated_once :
      (raw : RawDatabase S) (files files' : MigrationFiles) (state after : S)
      → NamesApart raw
      → CreatesTables raw files
      → apply_bootstrap_migration_if_needed raw files state ≡ (ok tt, after)
      → HasTables (raw.tables after)
        × (apply_bootstrap_migration_if_needed raw files' after ≡ (ok tt, after))
  unfolding apply_bootstrap_migration_if_needed NamesApart
  migrated_once raw files files' state after apart creates h =
      let there→ : HasTables (raw.tables after)
          → (apply_bootstrap_migration_if_needed raw files' after ≡ (ok tt, after)) =
        λ t. rw ((has_schema_iff raw after (apart after)).1 t) refl in
      elim (Bool-cases (has_schema raw state)) [
        | inl there ↦
            let same : (ok tt, state) ≡ (ok tt, after) = rw there at h in
            let kept : state ≡ after = ap (λ (r : Result (Unit {0}) × S). r.1) same in
            let tables = (has_schema_iff raw after (apart after)).0 (rw kept at there) in
            (tables, there→ tables)
        | inr missing ↦
            let ran : run_script raw state (find_migration files) ≡ (ok tt, after) =
              rw missing at h in
            let tables =
              run_script-tables raw files state after (find_migration files) creates refl ran in
            (tables, there→ tables)
      ]

  -- What a process that listens has been given.
  pub record IsWired (around : Surroundings S) (w : Wiring S) : Type 0 where
    pub env : Env
    pub loaded : load_env around.platform around.source ≡ some env
    pub token : map_get (codes "ADMIN_TOKEN") around.source ≡ some w.admin_token
    pub long : 32 ≤ utf16_length w.admin_token
    pub controller : is_eth_address w.controller_address ≡ true
    pub port_low : 1 ≤ w.listen.port
    pub port_high : w.listen.port ≤ 65535
    pub tables : HasTables (around.raw.tables w.state)

  serve_over_wired :
      (around : Surroundings S) (env : Env) (listen : ListenConfig) (r : Result (Unit {0}) × S)
      (w : Wiring S)
      → serve_over around env listen r ≡ ok w
      → (r.0 ≡ ok tt) × (wire env listen r.1 ≡ w)
  unfolding serve_over
  serve_over_wired around env listen (err e, state) w h = absurd (cc)
  serve_over_wired around env listen (ok tt, state) w h =
      let (created, call, rest) =
        bind_ok around.create_server (λ created. ok (wire env listen state)) h in
      (refl, ok-injective _ w rest)

  boot_with-IsWired :
      (around : Surroundings S) (o : Option Env) (w : Wiring S)
      → NamesApart around.raw
      → CreatesTables around.raw around.files
      → load_env around.platform around.source ≡ o
      → boot_with around o ≡ ok w
      → IsWired around w
  unfolding boot_with wire
  boot_with-IsWired around none w apart creates found h = absurd (cc)
  boot_with-IsWired around (some env) w apart creates found h =
      let (listen, parsed, h₁) =
        bind_ok (parse_listen_addr around.platform.number env.listen_addr) _ h in
      let (state, opened, h₂) = bind_ok (around.open_sqlite env.state_path) _ h₁ in
      let migrated = apply_bootstrap_migration_if_needed around.raw around.files state in
      let (fine, same) = serve_over_wired around env listen migrated w h₂ in
      let whole : migrated ≡ (ok tt, migrated.1) = ap (λ r. (r, migrated.1)) fine in
      let (tables, again) =
        migrated_once around.raw around.files around.files state migrated.1 apart creates whole in
      let sound = load_env_sound around.platform around.source env found in
      let (after, text, number, host, low, high) =
        listen_addr_sound around.platform.number env.listen_addr listen parsed in
      rw (← same) (record {
        env = env;
        loaded = found;
        token = sound.token;
        long = sound.long;
        controller = sound.controller;
        port_low = low;
        port_high = high;
        tables = tables;
      })

  -- A process that begins to listen has accepted the environment; it has the environment's admin
  -- token, of at least 32 units, a well-formed controller address and a port from 1 to 65535, and its
  -- database has both tables; while the names of the tables are distinct and a run of the script that
  -- is found creates both or fails.
  pub boot-IsWired :
      (around : Surroundings S) (w : Wiring S)
      → NamesApart around.raw
      → CreatesTables around.raw around.files
      → boot around ≡ ok w
      → IsWired around w
  unfolding boot
  boot-IsWired around w apart creates h =
      boot_with-IsWired around (load_env around.platform around.source) w apart creates refl h
