-- ===== src/Migration/Versions.antt =====
-- src/migration/versions: what each revision does, and undoes.
use eq_site_cms_vk_service.Text.{codes}
use eq_site_cms_vk_service.Shared.{true, false, none, some, List, [], ◌∷◌}
use eq_site_cms_vk_service.Migration.Schema.{
  Table, column, id_column, uuid, big_integer, integer, date_time, jsonb, string, foreign_key,
  unique, check, create_table, create_index, drop_index, drop_table, Statement,
}

abbrev created_user_vks : Table
created_user_vks = record {
  name = codes "user_vks";
  columns =
      id_column
      ∷ column (codes "user_id") uuid false none
      ∷ column (codes "vk_peer_id") big_integer true none
      ∷ column (codes "state") (string 16) false (some (codes "'PENDING'"))
      ∷ column (codes "vk_screen_name") (string 64) true none
      ∷ column (codes "vk_display_name") (string 255) true none
      ∷ column (codes "deleted_at") date_time true none
      ∷ column (codes "created_at") date_time false (some (codes "now()"))
      ∷ column (codes "updated_at") date_time false (some (codes "now()"))
      ∷ [];
  constraints = [];
}

abbrev created_vk_confirmations : Table
created_vk_confirmations = record {
  name = codes "vk_confirmations";
  columns =
      id_column
      ∷ column (codes "user_vk_id") uuid false none
      ∷ column (codes "code") (string 16) false none
      ∷ column (codes "expires_at") date_time false none
      ∷ column (codes "created_at") date_time false (some (codes "now()"))
      ∷ column (codes "used_at") date_time true none
      ∷ [];
  constraints = foreign_key (codes "user_vk_id") (codes "user_vks") (codes "id") ∷ [];
}

abbrev created_vk_logs : Table
created_vk_logs = record {
  name = codes "vk_logs";
  columns =
      id_column
      ∷ column (codes "event_uuid") uuid false none
      ∷ column (codes "action") (string 64) false none
      ∷ column (codes "status") (string 32) false none
      ∷ column (codes "details") jsonb true none
      ∷ column (codes "created_at") date_time false (some (codes "now()"))
      ∷ [];
  constraints = [];
}

abbrev pub upgrade_vk_domain : List Statement
upgrade_vk_domain =
    create_table created_user_vks
    ∷ create_index (record {
      name = codes "uq_user_vks_user_id_active";
      table = codes "user_vks";
      column = codes "user_id";
      is_unique = true;
      condition = some (codes "deleted_at IS NULL");
    })
    ∷ create_index (record {
      name = codes "uq_user_vks_peer_id_active";
      table = codes "user_vks";
      column = codes "vk_peer_id";
      is_unique = true;
      condition = some (codes "deleted_at IS NULL AND vk_peer_id IS NOT NULL");
    })
    ∷ create_index (record {
      name = codes "ix_user_vks_state";
      table = codes "user_vks";
      column = codes "state";
      is_unique = false;
      condition = none;
    })
    ∷ create_table created_vk_confirmations
    ∷ create_index (record {
      name = codes "ix_vk_confirmations_code";
      table = codes "vk_confirmations";
      column = codes "code";
      is_unique = true;
      condition = none;
    })
    ∷ create_index (record {
      name = codes "ix_vk_confirmations_user_vk_id";
      table = codes "vk_confirmations";
      column = codes "user_vk_id";
      is_unique = false;
      condition = none;
    })
    ∷ create_table created_vk_logs
    ∷ create_index (record {
      name = codes "ix_vk_logs_event_uuid";
      table = codes "vk_logs";
      column = codes "event_uuid";
      is_unique = true;
      condition = none;
    })
    ∷ create_index (record {
      name = codes "ix_vk_logs_action";
      table = codes "vk_logs";
      column = codes "action";
      is_unique = false;
      condition = none;
    })
    ∷ create_index (record {
      name = codes "ix_vk_logs_created_at";
      table = codes "vk_logs";
      column = codes "created_at";
      is_unique = false;
      condition = none;
    })
    ∷ []

abbrev pub downgrade_vk_domain : List Statement
downgrade_vk_domain =
    drop_index (codes "ix_vk_logs_created_at")
    ∷ drop_index (codes "ix_vk_logs_action")
    ∷ drop_index (codes "ix_vk_logs_event_uuid")
    ∷ drop_table (codes "vk_logs")
    ∷ drop_index (codes "ix_vk_confirmations_user_vk_id")
    ∷ drop_index (codes "ix_vk_confirmations_code")
    ∷ drop_table (codes "vk_confirmations")
    ∷ drop_index (codes "ix_user_vks_state")
    ∷ drop_index (codes "uq_user_vks_peer_id_active")
    ∷ drop_index (codes "uq_user_vks_user_id_active")
    ∷ drop_table (codes "user_vks")
    ∷ []

abbrev created_vk_notification_deliveries : Table
created_vk_notification_deliveries = record {
  name = codes "vk_notification_deliveries";
  columns =
      id_column
      ∷ column (codes "event_uuid") uuid false none
      ∷ column (codes "user_id") uuid false none
      ∷ column (codes "vk_peer_id") big_integer false none
      ∷ column (codes "status") (string 16) false (some (codes "'PENDING'"))
      ∷ column (codes "attempts") integer false (some (codes "0"))
      ∷ column (codes "last_error") (string 64) true none
      ∷ column (codes "created_at") date_time false (some (codes "now()"))
      ∷ column (codes "updated_at") date_time false (some (codes "now()"))
      ∷ column (codes "sent_at") date_time true none
      ∷ [];
  constraints =
      unique (codes "uq_vk_notification_deliveries_event_user")
        (codes "event_uuid" ∷ codes "user_id" ∷ [])
      ∷ check (codes "ck_vk_notification_deliveries_status")
          (codes "status IN ('PENDING', 'SENT', 'FAILED')")
      ∷ check (codes "ck_vk_notification_deliveries_attempts") (codes "attempts >= 0")
      ∷ [];
}

abbrev pub upgrade_deliveries : List Statement
upgrade_deliveries =
    create_table created_vk_notification_deliveries
    ∷ create_index (record {
      name = codes "ix_vk_notification_deliveries_status";
      table = codes "vk_notification_deliveries";
      column = codes "status";
      is_unique = false;
      condition = none;
    })
    ∷ []

abbrev pub downgrade_deliveries : List Statement
downgrade_deliveries =
    drop_index (codes "ix_vk_notification_deliveries_status")
    ∷ drop_table (codes "vk_notification_deliveries")
    ∷ []
