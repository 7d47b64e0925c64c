-- ===== src/Schemas/Analytics.antt =====
-- api/app/schemas/analytics.py
use proyecto_1_back.Prelude.{ℕ, List}
use proyecto_1_back.Text.{Text}

pub record ScansByPeriod : Type 0 where
  pub period : Text
  pub count : ℕ

pub record ScansByHour : Type 0 where
  pub hour : ℕ
  pub count : ℕ

pub record TopUserAgent : Type 0 where
  pub user_agent : Text
  pub count : ℕ

pub record AnalyticsResponse : Type 0 where
  pub total_scans : ℕ
  pub scans_by_period : List ScansByPeriod
  pub scans_by_hour : List ScansByHour
  pub top_user_agents : List TopUserAgent
