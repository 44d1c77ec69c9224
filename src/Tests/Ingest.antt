-- ===== src/Tests/Ingest.antt =====
-- Ingesting a text (src/core/fpsan_lexer.h) at a concrete brain.
use engram_core.Prelude.Float.{thousandths}
use engram_core.Lexer.{init_lexicon}
use engram_core.Ingest.{Brain}
use engram_core.Tests.Graph.{blank}
use engram_core.Tests.Language.{untaught}

abbrev untaught_brain : Brain thousandths
untaught_brain = record { lexicon = init_lexicon 100; clusters = untaught; graph = blank }
