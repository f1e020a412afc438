-- ===== src/Installer/Errors/Cluster.antt =====
-- internal/installer/errors.go: the patterns of limits, servers, and what runs on a cluster.
use philotes.Common.{true, [], ◌∷◌}
use philotes.Installer.Errors.{ErrorPattern}

abbrev pub rate_limited_pattern : ErrorPattern
rate_limited_pattern = record {
  patterns = "rate limit" ∷ "too many requests" ∷ "429" ∷ "throttl" ∷ [];
  error = record {
    code = "RATE_LIMITED";
    message = "Request rate limit exceeded";
    details = "";
    suggestions =
        "Wait a few minutes before retrying" ∷ "The cloud provider is rate limiting requests"
        ∷ "Consider spacing out deployment requests" ∷ [];
    retryable = true;
    docs_url = "https://docs.philotes.io/troubleshooting/rate-limits";
  };
}

abbrev pub provider_error_pattern : ErrorPattern
provider_error_pattern = record {
  patterns = "server error" ∷ "500" ∷ "internal error" ∷ "service unavailable" ∷ "503" ∷ [];
  error = record {
    code = "PROVIDER_ERROR";
    message = "Cloud provider internal error";
    details = "";
    suggestions =
        "The cloud provider is experiencing issues" ∷ "Check the provider's status page for outages"
        ∷ "Try again in a few minutes" ∷ "Consider trying a different region" ∷ [];
    retryable = true;
    docs_url = "https://docs.philotes.io/troubleshooting/provider-errors";
  };
}

abbrev pub ssh_error_pattern : ErrorPattern
ssh_error_pattern = record {
  patterns = "ssh" ∷ "connection closed" ∷ "host key" ∷ "known_hosts" ∷ [];
  error = record {
    code = "SSH_ERROR";
    message = "SSH connection to server failed";
    details = "";
    suggestions =
        "The server may still be initializing" ∷ "Check if the SSH key was correctly configured"
        ∷ "Verify the server's firewall allows SSH connections"
        ∷ "Wait a moment and retry the deployment" ∷ [];
    retryable = true;
    docs_url = "https://docs.philotes.io/troubleshooting/ssh";
  };
}

abbrev pub k8s_error_pattern : ErrorPattern
k8s_error_pattern = record {
  patterns = "kubernetes" ∷ "k3s" ∷ "kubectl" ∷ "pod" ∷ "deployment" ∷ "helm" ∷ [];
  error = record {
    code = "K8S_ERROR";
    message = "Kubernetes deployment error";
    details = "";
    suggestions =
        "Check if the cluster has sufficient resources" ∷ "Verify the Kubernetes nodes are healthy"
        ∷ "Check for any failed pods or deployments" ∷ "Review the Helm chart values for any issues"
        ∷ [];
    retryable = true;
    docs_url = "https://docs.philotes.io/troubleshooting/kubernetes";
  };
}

abbrev pub storage_error_pattern : ErrorPattern
storage_error_pattern = record {
  patterns = "volume" ∷ "storage" ∷ "disk" ∷ "pvc" ∷ "persistent" ∷ [];
  error = record {
    code = "STORAGE_ERROR";
    message = "Storage provisioning error";
    details = "";
    suggestions =
        "Check if storage is available in the selected region"
        ∷ "Verify you have quota for additional storage" ∷ "Try reducing the storage size"
        ∷ "Check for any existing claims on the storage" ∷ [];
    retryable = true;
    docs_url = "https://docs.philotes.io/troubleshooting/storage";
  };
}

abbrev pub ssl_error_pattern : ErrorPattern
ssl_error_pattern = record {
  patterns = "certificate" ∷ "ssl" ∷ "tls" ∷ "cert-manager" ∷ "acme" ∷ "let's encrypt" ∷ [];
  error = record {
    code = "SSL_ERROR";
    message = "SSL/TLS certificate error";
    details = "";
    suggestions =
        "Verify your domain DNS is correctly configured"
        ∷ "Check if the domain points to the load balancer IP"
        ∷ "Ensure ports 80 and 443 are accessible for ACME challenges"
        ∷ "Wait for DNS propagation if recently updated" ∷ [];
    retryable = true;
    docs_url = "https://docs.philotes.io/troubleshooting/ssl";
  };
}
