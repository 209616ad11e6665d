-- ===== src/Expect.antt =====
-- go/internal/expect/expect.go: the positive control, the findings that the harness must still make.
-- What `path.Match` says is a parameter, as in the gates. An error of the scanner is not modelled.
pub mod Control
mod Examples
