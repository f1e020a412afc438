-- ===== src/Installer/Errors/Provider.antt =====
-- internal/installer/errors.go: the patterns of the errors of a provider.
use philotes.Common.{true, false, [], ◌∷◌}
use philotes.Installer.Errors.{ErrorPattern}

abbrev pub auth_failed_pattern : ErrorPattern
auth_failed_pattern = record {
  patterns =
      "unauthorized" ∷ "401" ∷ "invalid token" ∷ "authentication failed" ∷ "invalid api key" ∷ [];
  error = record {
    code = "AUTH_FAILED";
    message = "Cloud provider authentication failed";
    details = "";
    suggestions =
        "Verify your API token is correct and has not expired"
        ∷ "Check that your API token has the required permissions"
        ∷ "If using OAuth, try re-authorizing the connection"
        ∷ "Ensure the API key was copied completely without extra spaces" ∷ [];
    retryable = true;
    docs_url = "https://docs.philotes.io/troubleshooting/authentication";
  };
}

abbrev pub quota_exceeded_pattern : ErrorPattern
quota_exceeded_pattern = record {
  patterns =
      "quota exceeded" ∷ "limit reached" ∷ "resource limit" ∷ "insufficient quota"
      ∷ "maximum number" ∷ [];
  error = record {
    code = "QUOTA_EXCEEDED";
    message = "Cloud provider quota or resource limit exceeded";
    details = "";
    suggestions =
        "Request a quota increase from your cloud provider" ∷ "Try a smaller deployment size"
        ∷ "Check if you have other resources consuming quota"
        ∷ "Delete unused resources in your account" ∷ [];
    retryable = false;
    docs_url = "https://docs.philotes.io/troubleshooting/quotas";
  };
}

abbrev pub timeout_pattern : ErrorPattern
timeout_pattern = record {
  patterns = "timeout" ∷ "timed out" ∷ "deadline exceeded" ∷ "context deadline" ∷ [];
  error = record {
    code = "TIMEOUT";
    message = "Operation timed out";
    details = "";
    suggestions =
        "The cloud provider may be experiencing delays" ∷ "Check your internet connection"
        ∷ "Try again in a few minutes" ∷ "Consider using a region closer to your location" ∷ [];
    retryable = true;
    docs_url = "https://docs.philotes.io/troubleshooting/timeouts";
  };
}

abbrev pub network_error_pattern : ErrorPattern
network_error_pattern = record {
  patterns =
      "connection refused" ∷ "network unreachable" ∷ "no route to host" ∷ "connection reset" ∷ "dns"
      ∷ [];
  error = record {
    code = "NETWORK_ERROR";
    message = "Network connectivity issue";
    details = "";
    suggestions =
        "Check your internet connection" ∷ "Verify the cloud provider's API endpoint is accessible"
        ∷ "Check if a firewall is blocking outbound connections"
        ∷ "Try using a different network or VPN" ∷ [];
    retryable = true;
    docs_url = "https://docs.philotes.io/troubleshooting/network";
  };
}

abbrev pub permission_denied_pattern : ErrorPattern
permission_denied_pattern = record {
  patterns = "forbidden" ∷ "403" ∷ "permission denied" ∷ "access denied" ∷ "not authorized" ∷ [];
  error = record {
    code = "PERMISSION_DENIED";
    message = "Insufficient permissions";
    details = "";
    suggestions =
        "Verify your API token has the required permissions"
        ∷ "Check if your account has access to the requested region"
        ∷ "Ensure you have permission to create the requested resource types"
        ∷ "Contact your cloud provider to enable the required APIs" ∷ [];
    retryable = false;
    docs_url = "https://docs.philotes.io/troubleshooting/permissions";
  };
}

abbrev pub resource_not_found_pattern : ErrorPattern
resource_not_found_pattern = record {
  patterns = "not found" ∷ "404" ∷ "does not exist" ∷ "no such" ∷ [];
  error = record {
    code = "RESOURCE_NOT_FOUND";
    message = "Required resource not found";
    details = "";
    suggestions =
        "Verify the region is correct and available"
        ∷ "Check if the requested instance type exists in the selected region"
        ∷ "Ensure prerequisite resources have been created" ∷ [];
    retryable = false;
    docs_url = "https://docs.philotes.io/troubleshooting/resources";
  };
}

abbrev pub resource_conflict_pattern : ErrorPattern
resource_conflict_pattern = record {
  patterns = "already exists" ∷ "conflict" ∷ "duplicate" ∷ "name taken" ∷ [];
  error = record {
    code = "RESOURCE_CONFLICT";
    message = "Resource already exists";
    details = "";
    suggestions =
        "Use a different name for your deployment"
        ∷ "Delete the existing resource if it's no longer needed"
        ∷ "Check if a previous deployment with this name exists" ∷ [];
    retryable = false;
    docs_url = "https://docs.philotes.io/troubleshooting/conflicts";
  };
}
