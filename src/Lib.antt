-- ===== src/Lib.antt =====
-- The translation runtime of tra-prototype/tra: a kernel that runs a document through a fixed
-- sequence of states, the instructions that it calls, and the registries that they share.
--
-- Prelude, Text, Regex, Dict: lists, Python's texts, `re` and `dict` as far as they are used.
-- Exceptions (exceptions.py), Memory (memory.py), Policy (policy.py), Recovery (recovery.py),
-- Diagnostics (diagnostics.py: evidence registry and audit trail), Modules (modules/base.py,
-- modules/registry.py), Modules.ZhEn (modules/zh_en.py), Modules.Bundled (the registry builders of
-- modules/registry.py), Anchor (anchor.py: slugs, registry, link rewriting), Builder (anchor.py: the
-- structural map builder; Builder.Document has documents as trees and the tokens that stand for
-- them), Cache (cache.py: keys and the signed store), Utils (utils.py), Redaction (`_SECRET_RE` of
-- kernel.py).
-- Vm: `RuntimeContext` with the audit trail, the evidence registry and the cache, which isa.py is
-- handed; Vm.Exec has actions on a state that may raise. Isa: the instructions of isa.py, one module
-- each, with the names of the source. Kernel: kernel.py and hitl.py; Kernel.Run is `TRAKernel.run`,
-- Kernel.Translation `_execute_translation`, Kernel.Links `_rewrite_anchors`, Kernel.Loop
-- `_repair_loop`, Kernel.Hitl the hand-off to a reviewer, Kernel.Export `_export_artifacts` and
-- `_export_forensics`.
-- Config (config.py): the configuration, the check of its paths and its reader.
-- Validate (validate.py), Benchmark (benchmark.py), Reporting (reporting.py) and CommandLine
-- (tra-prototype/tra_cli.py) are clients of the kernel and of its instructions; Validate.Artifacts
-- and Kernel.Artifacts say what a run and a validation make of a source.
-- Wrapper (docs/ssh_git_wrapper_v3.py) stands beside the runtime: Wrapper is `parse_args`,
-- Wrapper.Channel `forward_stdin` and `io_loop`, Wrapper.Session `main`; Wrapper.Arguments and
-- Wrapper.Target have settings and targets with the texts that stand for them. Text.Shell is `shlex`.
-- Register (tra-audit-skills/round7/scripts): how the findings of an audit are merged and normalized;
-- Register.Normalize.Script is the script that normalizes the register and sums it up;
-- Register.Classify (tra-audit-skills/round6/scripts): how they are classified and counted.
-- Examples: concrete runs.
--
-- Parameters, as they are no code of the repository: the Unicode database, SHA-256, HMAC and JSON,
-- the parser of stored results, markdown-it's tokens of a source, the model behind `llm_translate`,
-- and the reviewer, who answers each prompt; for the configuration YAML, pydantic and how a path is
-- resolved; for the wrapper paramiko, `int`, the files and the environment. diskcache is taken for a
-- dictionary: its culling of a store that has reached its size limit is left out. The methods of a
-- language module are functions. Texts are sequences of code points.
--
-- Bounds: the search for a free slug has one round for each slug in use, the repair loop one for
-- each retry, a repetition in a pattern one for each code point that is left, the walk over tokens
-- one for each token and one more; each is as many as the source can take. The clock of the audit
-- trail is one value for a run, as in deterministic mode.
--
-- Not modelled: what the commands print, which is output; the other scripts of tra-audit-skills,
-- which write audit reports, spreadsheets and documents.
pub mod Prelude
pub mod Text
pub mod Regex
pub mod Dict
pub mod Exceptions
pub mod Memory
pub mod Policy
pub mod Recovery
pub mod Diagnostics
pub mod Modules
pub mod Anchor
pub mod Builder
pub mod Cache
pub mod Utils
pub mod Redaction
pub mod Vm
pub mod Isa
pub mod Validate
pub mod Reporting
pub mod Benchmark
pub mod Config
pub mod CommandLine
pub mod Wrapper
pub mod Register
pub mod Kernel
mod Examples
