-- ===== src/Fix/Templates.antt =====
-- internal/fix/registry.go: the templates of `registerDefaults`, in its order.
mod Setup
mod Trace
use devdiag.Base.{List, ◌++◌}
use devdiag.Fix.Blocklist.{Template}
use devdiag.Fix.Templates.Setup.{setup_templates}
use devdiag.Fix.Templates.Trace.{trace_templates}

abbrev pub default_templates : List Template
default_templates = setup_templates ++ trace_templates
