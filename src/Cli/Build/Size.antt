-- ===== src/Cli/Build/Size.antt =====
-- cmd/easyp-svc/build.go: the size of an artifact is shown in a unit that fits it.
