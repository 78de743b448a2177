-- ===== src/ServerMain/Usage.antt =====
-- cmd/server/main.go: `printUsage`.
use ssnproj.Base.{[], ◌∷◌, List}
use ssnproj.Bytes.BigEndian.{Bytes}
use ssnproj.Server.World.{text}

-- The lines that are printed.
abbrev pub usage : List Bytes
usage =
    text "Secure File Transfer Server"
    ∷ text ""
    ∷ text "Usage:"
    ∷ text "  go run cmd/server/main.go [flags]"
    ∷ text ""
    ∷ text "Flags:"
    ∷ text "  -host string"
    ∷ text "        Server host address (default: localhost)"
    ∷ text "        Environment variable: SERVER_HOST"
    ∷ text ""
    ∷ text "  -port string"
    ∷ text "        Server port (default: 8080)"
    ∷ text "        Environment variable: SERVER_PORT"
    ∷ text ""
    ∷ text "  -config string"
    ∷ text "        Configuration folder path (default: configs/server)"
    ∷ text "        Environment variable: SERVER_CONFIG_FOLDER"
    ∷ text ""
    ∷ text "  -root-dir string"
    ∷ text "        Root directory for file operations (default: data)"
    ∷ text "        Environment variable: SERVER_ROOT_DIR"
    ∷ text ""
    ∷ text "  -log-level string"
    ∷ text "        Log level: debug, info, warn, error (default: info)"
    ∷ text "        Environment variable: SERVER_LOG_LEVEL"
    ∷ text ""
    ∷ text "  -help"
    ∷ text "        Show this help message"
    ∷ text ""
    ∷ text "Environment Variables:"
    ∷ text "  SERVER_HOST         - Server host address"
    ∷ text "  SERVER_PORT         - Server port"
    ∷ text "  SERVER_CONFIG_FOLDER - Configuration folder path"
    ∷ text "  SERVER_ROOT_DIR     - Root directory for file operations"
    ∷ text "  SERVER_LOG_LEVEL    - Log level"
    ∷ text ""
    ∷ text "Examples:"
    ∷ text "  # Run with default settings"
    ∷ text "  go run cmd/server/main.go"
    ∷ text ""
    ∷ text "  # Run with custom port"
    ∷ text "  go run cmd/server/main.go -port 9000"
    ∷ text ""
    ∷ text "  # Run with environment variables"
    ∷ text "  SERVER_PORT=9000 SERVER_LOG_LEVEL=debug go run cmd/server/main.go"
    ∷ text ""
    ∷ text "  # Run with custom config and data directories"
    ∷ text "  go run cmd/server/main.go -config /etc/ssnproj -root-dir /var/lib/ssnproj"
    ∷ []
